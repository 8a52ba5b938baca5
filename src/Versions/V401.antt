-- ===== src/Versions/V401.antt =====
-- src/protocol/versions/v401.rs: the packets of protocol version 401.
use protocraft_framework.Prelude.{[], ◌∷◌, none}
use protocraft_framework.Versions.{Table, Version}

abbrev status_to_client : Table
status_to_client = (0x00, "Response") ∷ (0x01, "Pong") ∷ []

abbrev status_to_server : Table
status_to_server = (0x00, "Request") ∷ (0x01, "Ping") ∷ []

abbrev login_to_client : Table
login_to_client =
    (0x00, "Disconnect")
    ∷ (0x01, "EncryptionRequest")
    ∷ (0x02, "LoginSuccess")
    ∷ (0x03, "SetCompression")
    ∷ (0x04, "LoginPluginRequest")
    ∷ []

abbrev login_to_server : Table
login_to_server =
    (0x00, "LoginStart") ∷ (0x01, "EncryptionResponse") ∷ (0x02, "LoginPluginResponse") ∷ []

abbrev play_to_client : Table
play_to_client =
    (0x00, "SpawnObject")
    ∷ (0x01, "SpawnExperienceOrb")
    ∷ (0x02, "SpawnGlobalEntity")
    ∷ (0x03, "SpawnMob")
    ∷ (0x04, "SpawnPainting")
    ∷ (0x05, "SpawnPlayer")
    ∷ (0x06, "Animation")
    ∷ (0x07, "Statistics")
    ∷ (0x08, "BlockBreakAnimation")
    ∷ (0x09, "UpdateBlockEntity")
    ∷ (0x0A, "BlockAction")
    ∷ (0x0B, "BlockChange")
    ∷ (0x0C, "BossBar")
    ∷ (0x0D, "ServerDifficulty")
    ∷ (0x0E, "ChatMessage")
    ∷ (0x0F, "MultiBlockChange")
    ∷ (0x10, "TabComplete")
    ∷ (0x11, "DeclareCommands")
    ∷ (0x12, "ConfirmTransaction")
    ∷ (0x13, "CloseWindow")
    ∷ (0x14, "OpenWindow")
    ∷ (0x15, "WindowItems")
    ∷ (0x16, "WindowProperty")
    ∷ (0x17, "SetSlot")
    ∷ (0x18, "SetCooldown")
    ∷ (0x19, "PluginMessage")
    ∷ (0x1A, "NamedSoundEffect")
    ∷ (0x1B, "Disconnect")
    ∷ (0x1C, "EntityStatus")
    ∷ (0x1D, "NBTQueryResponse")
    ∷ (0x1E, "Explosion")
    ∷ (0x1F, "UnloadChunk")
    ∷ (0x20, "ChangeGameState")
    ∷ (0x21, "KeepAlive")
    ∷ (0x22, "ChunkData")
    ∷ (0x23, "Effect")
    ∷ (0x24, "Particle")
    ∷ (0x25, "JoinGame")
    ∷ (0x26, "Map")
    ∷ (0x27, "Entity")
    ∷ (0x28, "EntityRelativeMove")
    ∷ (0x29, "EntityLookAndRelativeMove")
    ∷ (0x2A, "EntityLook")
    ∷ (0x2B, "VehicleMove")
    ∷ (0x2C, "OpenSignEditor")
    ∷ (0x2D, "CraftRecipeResponse")
    ∷ (0x2E, "PlayerAbilities")
    ∷ (0x2F, "CombatEvent")
    ∷ (0x30, "PlayerListItem")
    ∷ (0x31, "FacePlayer")
    ∷ (0x32, "PlayerPositionAndLook")
    ∷ (0x33, "UseBed")
    ∷ (0x34, "UnlockRecipes")
    ∷ (0x35, "DestroyEntities")
    ∷ (0x36, "RemoveEntityEffect")
    ∷ (0x37, "ResourcePackSend")
    ∷ (0x38, "Respawn")
    ∷ (0x39, "EntityHeadLook")
    ∷ (0x3A, "SelectAdvancementTab")
    ∷ (0x3B, "WorldBorder")
    ∷ (0x3C, "Camera")
    ∷ (0x3D, "HeldItemChange")
    ∷ (0x3E, "DisplayScoreboard")
    ∷ (0x3F, "EntityMetadata")
    ∷ (0x40, "AttachEntity")
    ∷ (0x41, "EntityVelocity")
    ∷ (0x42, "EntityEquipment")
    ∷ (0x43, "SetExperience")
    ∷ (0x44, "UpdateHealth")
    ∷ (0x45, "ScoreboardObjective")
    ∷ (0x46, "SetPassengers")
    ∷ (0x47, "Teams")
    ∷ (0x48, "UpdateScore")
    ∷ (0x49, "SpawnPosition")
    ∷ (0x4A, "TimeUpdate")
    ∷ (0x4B, "Title")
    ∷ (0x4C, "StopSound")
    ∷ (0x4D, "SoundEffect")
    ∷ (0x4E, "PlayerListHeaderAndFooter")
    ∷ (0x4F, "CollectItem")
    ∷ (0x50, "EntityTeleport")
    ∷ (0x51, "Advancements")
    ∷ (0x52, "EntityProperties")
    ∷ (0x53, "EntityEffect")
    ∷ (0x54, "DeclareRecipes")
    ∷ (0x55, "Tags")
    ∷ []

abbrev play_to_server : Table
play_to_server =
    (0x00, "TeleportConfirm")
    ∷ (0x01, "QueryBlockNBT")
    ∷ (0x02, "ChatMessage")
    ∷ (0x03, "ClientStatus")
    ∷ (0x04, "ClientSettings")
    ∷ (0x05, "TabComplete")
    ∷ (0x06, "ConfirmTransaction")
    ∷ (0x07, "EnchantItem")
    ∷ (0x08, "ClickWindow")
    ∷ (0x09, "CloseWindow")
    ∷ (0x0A, "PluginMessage")
    ∷ (0x0B, "EditBook")
    ∷ (0x0C, "QueryEntityNBT")
    ∷ (0x0D, "UseEntity")
    ∷ (0x0E, "KeepAlive")
    ∷ (0x0F, "Player")
    ∷ (0x10, "PlayerPosition")
    ∷ (0x11, "PlayerPositionAndLook")
    ∷ (0x12, "PlayerLook")
    ∷ (0x13, "VehicleMove")
    ∷ (0x14, "SteerBoat")
    ∷ (0x15, "PickItem")
    ∷ (0x16, "CraftRecipeRequest")
    ∷ (0x17, "PlayerAbilities")
    ∷ (0x18, "PlayerDigging")
    ∷ (0x19, "EntityAction")
    ∷ (0x1A, "SteerVehicle")
    ∷ (0x1B, "RecipeBookData")
    ∷ (0x1C, "NameItem")
    ∷ (0x1D, "ResourcePackStatus")
    ∷ (0x1E, "AdvancementTab")
    ∷ (0x1F, "SelectTrade")
    ∷ (0x20, "SetBeaconEffect")
    ∷ (0x21, "HeldItemChange")
    ∷ (0x22, "UpdateCommandBlock")
    ∷ (0x23, "UpdateCommandBlockMinecart")
    ∷ (0x24, "CreativeInventoryAction")
    ∷ (0x25, "UpdateStructureBlock")
    ∷ (0x26, "UpdateSign")
    ∷ (0x27, "Animation")
    ∷ (0x28, "Spectate")
    ∷ (0x29, "PlayerBlockPlacement")
    ∷ (0x2A, "UseItem")
    ∷ []

-- `v1_13_1`.
abbrev pub version_401 : Version
version_401 = record {
  version = 401;
  status_tables = record { to_client = status_to_client; to_server = status_to_server };
  login_tables = record { to_client = login_to_client; to_server = login_to_server };
  config_tables = none;
  play_tables = record { to_client = play_to_client; to_server = play_to_server };
}
