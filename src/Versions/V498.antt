-- ===== src/Versions/V498.antt =====
-- src/protocol/versions/v498.rs: the packets of protocol version 498.
use protocraft_framework.Prelude.{[], ◌∷◌, none}
use protocraft_framework.Versions.{Table, Version}

abbrev status_to_client : Table
status_to_client = (0x00, "Response") ∷ (0x01, "Pong") ∷ []

abbrev status_to_server : Table
status_to_server = (0x00, "Request") ∷ (0x01, "Ping") ∷ []

abbrev login_to_client : Table
login_to_client =
    (0x00, "Disconnect")
    ∷ (0x01, "EncryptionRequest")
    ∷ (0x02, "LoginSuccess")
    ∷ (0x03, "SetCompression")
    ∷ (0x04, "LoginPluginRequest")
    ∷ []

abbrev login_to_server : Table
login_to_server =
    (0x00, "LoginStart") ∷ (0x01, "EncryptionResponse") ∷ (0x02, "LoginPluginResponse") ∷ []

abbrev play_to_client : Table
play_to_client =
    (0x00, "SpawnObject")
    ∷ (0x01, "SpawnExperienceOrb")
    ∷ (0x02, "SpawnGlobalEntity")
    ∷ (0x03, "SpawnMob")
    ∷ (0x04, "SpawnPainting")
    ∷ (0x05, "SpawnPlayer")
    ∷ (0x06, "EntityAnimation")
    ∷ (0x07, "Statistics")
    ∷ (0x08, "BlockBreakAnimation")
    ∷ (0x09, "UpdateBlockEntity")
    ∷ (0x0A, "BlockAction")
    ∷ (0x0B, "BlockChange")
    ∷ (0x0C, "BossBar")
    ∷ (0x0D, "ServerDifficulty")
    ∷ (0x0E, "ChatMessage")
    ∷ (0x0F, "MultiBlockChange")
    ∷ (0x10, "TabComplete")
    ∷ (0x11, "DeclareCommands")
    ∷ (0x12, "WindowConfirmation")
    ∷ (0x13, "CloseWindow")
    ∷ (0x14, "WindowItems")
    ∷ (0x15, "WindowProperty")
    ∷ (0x16, "SetSlot")
    ∷ (0x17, "SetCooldown")
    ∷ (0x18, "PluginMessage")
    ∷ (0x19, "NamedSoundEffect")
    ∷ (0x1A, "Disconnect")
    ∷ (0x1B, "EntityStatus")
    ∷ (0x1C, "Explosion")
    ∷ (0x1D, "UnloadChunk")
    ∷ (0x1E, "ChangeGameState")
    ∷ (0x1F, "OpenHorseWindow")
    ∷ (0x20, "KeepAlive")
    ∷ (0x21, "ChunkData")
    ∷ (0x22, "Effect")
    ∷ (0x23, "Particle")
    ∷ (0x24, "UpdateLight")
    ∷ (0x25, "JoinGame")
    ∷ (0x26, "MapData")
    ∷ (0x27, "TradeList")
    ∷ (0x28, "EntityPosition")
    ∷ (0x29, "EntityPositionandRotation")
    ∷ (0x2A, "EntityRotation")
    ∷ (0x2B, "EntityMovement")
    ∷ (0x2C, "VehicleMove")
    ∷ (0x2D, "OpenBook")
    ∷ (0x2E, "OpenWindow")
    ∷ (0x2F, "OpenSignEditor")
    ∷ (0x30, "CraftRecipeResponse")
    ∷ (0x31, "PlayerAbilities")
    ∷ (0x32, "CombatEvent")
    ∷ (0x33, "PlayerInfo")
    ∷ (0x34, "FacePlayer")
    ∷ (0x35, "PlayerPositionAndLook")
    ∷ (0x36, "UnlockRecipes")
    ∷ (0x37, "DestroyEntities")
    ∷ (0x38, "RemoveEntityEffect")
    ∷ (0x39, "ResourcePackSend")
    ∷ (0x3A, "Respawn")
    ∷ (0x3B, "EntityHeadLook")
    ∷ (0x3C, "SelectAdvancementTab")
    ∷ (0x3D, "WorldBorder")
    ∷ (0x3E, "Camera")
    ∷ (0x3F, "HeldItemChange")
    ∷ (0x40, "UpdateViewPosition")
    ∷ (0x41, "UpdateViewDistance")
    ∷ (0x42, "DisplayScoreboard")
    ∷ (0x43, "EntityMetadata")
    ∷ (0x44, "AttachEntity")
    ∷ (0x45, "EntityVelocity")
    ∷ (0x46, "EntityEquipment")
    ∷ (0x47, "SetExperience")
    ∷ (0x48, "UpdateHealth")
    ∷ (0x49, "ScoreboardObjective")
    ∷ (0x4A, "SetPassengers")
    ∷ (0x4B, "Teams")
    ∷ (0x4C, "UpdateScore")
    ∷ (0x4D, "SpawnPosition")
    ∷ (0x4E, "TimeUpdate")
    ∷ (0x4F, "Title")
    ∷ (0x50, "EntitySoundEffect")
    ∷ (0x51, "SoundEffect")
    ∷ (0x52, "StopSound")
    ∷ (0x53, "PlayerListHeaderAndFooter")
    ∷ (0x54, "NBTQueryResponse")
    ∷ (0x55, "CollectItem")
    ∷ (0x56, "EntityTeleport")
    ∷ (0x57, "Advancements")
    ∷ (0x58, "EntityProperties")
    ∷ (0x59, "EntityEffect")
    ∷ (0x5A, "DeclareRecipes")
    ∷ (0x5B, "Tags")
    ∷ (0x5C, "AcknowledgePlayerDigging")
    ∷ []

abbrev play_to_server : Table
play_to_server =
    (0x00, "TeleportConfirm")
    ∷ (0x01, "QueryBlockNBT")
    ∷ (0x02, "SetDifficulty")
    ∷ (0x03, "ChatMessage")
    ∷ (0x04, "ClientStatus")
    ∷ (0x05, "ClientSettings")
    ∷ (0x06, "TabComplete")
    ∷ (0x07, "WindowConfirmation")
    ∷ (0x08, "ClickWindowButton")
    ∷ (0x09, "ClickWindow")
    ∷ (0x0A, "CloseWindow")
    ∷ (0x0B, "PluginMessage")
    ∷ (0x0C, "EditBook")
    ∷ (0x0D, "EntityNBTRequest")
    ∷ (0x0E, "InteractEntity")
    ∷ (0x0F, "KeepAlive")
    ∷ (0x10, "LockDifficulty")
    ∷ (0x11, "PlayerPosition")
    ∷ (0x12, "PlayerPositionAndRotation")
    ∷ (0x13, "PlayerRotation")
    ∷ (0x14, "PlayerMovement")
    ∷ (0x15, "VehicleMove")
    ∷ (0x16, "SteerBoat")
    ∷ (0x17, "PickItem")
    ∷ (0x18, "CraftRecipeRequest")
    ∷ (0x19, "PlayerAbilities")
    ∷ (0x1A, "PlayerDigging")
    ∷ (0x1B, "EntityAction")
    ∷ (0x1C, "SteerVehicle")
    ∷ (0x1D, "RecipeBookData")
    ∷ (0x1E, "NameItem")
    ∷ (0x1F, "ResourcePackStatus")
    ∷ (0x20, "AdvancementTab")
    ∷ (0x21, "SelectTrade")
    ∷ (0x22, "SetBeaconEffect")
    ∷ (0x23, "HeldItemChange")
    ∷ (0x24, "UpdateCommandBlock")
    ∷ (0x25, "UpdateCommandBlockMinecart")
    ∷ (0x26, "CreativeInventoryAction")
    ∷ (0x27, "UpdateJigsawBlock")
    ∷ (0x28, "UpdateStructureBlock")
    ∷ (0x29, "UpdateSign")
    ∷ (0x2A, "Animation")
    ∷ (0x2B, "Spectate")
    ∷ (0x2C, "PlayerBlockPlacement")
    ∷ (0x2D, "UseItem")
    ∷ []

-- `v1_14_4`.
abbrev pub version_498 : Version
version_498 = record {
  version = 498;
  status_tables = record { to_client = status_to_client; to_server = status_to_server };
  login_tables = record { to_client = login_to_client; to_server = login_to_server };
  config_tables = none;
  play_tables = record { to_client = play_to_client; to_server = play_to_server };
}
