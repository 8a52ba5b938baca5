-- ===== src/Versions/V340.antt =====
-- src/protocol/versions/v340.rs: the packets of protocol version 340.
use protocraft_framework.Prelude.{[], ◌∷◌, none}
use protocraft_framework.Versions.{Table, Version}

abbrev status_to_client : Table
status_to_client = (0x00, "Response") ∷ (0x01, "Pong") ∷ []

abbrev status_to_server : Table
status_to_server = (0x00, "Request") ∷ (0x01, "Ping") ∷ []

abbrev login_to_client : Table
login_to_client =
    (0x00, "Disconnect")
    ∷ (0x01, "EncryptionRequest")
    ∷ (0x02, "LoginSuccess")
    ∷ (0x03, "SetCompression")
    ∷ []

abbrev login_to_server : Table
login_to_server = (0x00, "LoginStart") ∷ (0x01, "EncryptionResponse") ∷ []

abbrev play_to_client : Table
play_to_client =
    (0x00, "SpawnObject")
    ∷ (0x01, "SpawnExperienceOrb")
    ∷ (0x02, "SpawnGlobalEntity")
    ∷ (0x03, "SpawnMob")
    ∷ (0x04, "SpawnPainting")
    ∷ (0x05, "SpawnPlayer")
    ∷ (0x06, "Animation")
    ∷ (0x07, "Statistics")
    ∷ (0x08, "BlockBreakAnimation")
    ∷ (0x09, "UpdateBlockEntity")
    ∷ (0x0A, "BlockAction")
    ∷ (0x0B, "BlockChange")
    ∷ (0x0C, "BossBar")
    ∷ (0x0D, "ServerDifficulty")
    ∷ (0x0E, "TabComplete")
    ∷ (0x0F, "ChatMessage")
    ∷ (0x10, "MultiBlockChange")
    ∷ (0x11, "ConfirmTransaction")
    ∷ (0x12, "CloseWindow")
    ∷ (0x13, "OpenWindow")
    ∷ (0x14, "WindowItems")
    ∷ (0x15, "WindowProperty")
    ∷ (0x16, "SetSlot")
    ∷ (0x17, "SetCooldown")
    ∷ (0x18, "PluginMessage")
    ∷ (0x19, "NamedSoundEffect")
    ∷ (0x1A, "Disconnect")
    ∷ (0x1B, "EntityStatus")
    ∷ (0x1C, "Explosion")
    ∷ (0x1D, "UnloadChunk")
    ∷ (0x1E, "ChangeGameState")
    ∷ (0x1F, "KeepAlive")
    ∷ (0x20, "ChunkData")
    ∷ (0x21, "Effect")
    ∷ (0x22, "Particle")
    ∷ (0x23, "JoinGame")
    ∷ (0x24, "Map")
    ∷ (0x25, "Entity")
    ∷ (0x26, "EntityRelativeMove")
    ∷ (0x27, "EntityLookAndRelativeMove")
    ∷ (0x28, "EntityLook")
    ∷ (0x29, "VehicleMove")
    ∷ (0x2A, "OpenSignEditor")
    ∷ (0x2B, "CraftRecipeResponse")
    ∷ (0x2C, "PlayerAbilities")
    ∷ (0x2D, "CombatEvent")
    ∷ (0x2E, "PlayerListItem")
    ∷ (0x2F, "PlayerPositionAndLook")
    ∷ (0x30, "UseBed")
    ∷ (0x31, "UnlockRecipes")
    ∷ (0x32, "DestroyEntities")
    ∷ (0x33, "RemoveEntityEffect")
    ∷ (0x34, "ResourcePackSend")
    ∷ (0x35, "Respawn")
    ∷ (0x36, "EntityHeadLook")
    ∷ (0x37, "SelectAdvancementTab")
    ∷ (0x38, "WorldBorder")
    ∷ (0x39, "Camera")
    ∷ (0x3A, "HeldItemChange")
    ∷ (0x3B, "DisplayScoreboard")
    ∷ (0x3C, "EntityMetadata")
    ∷ (0x3D, "AttachEntity")
    ∷ (0x3E, "EntityVelocity")
    ∷ (0x3F, "EntityEquipment")
    ∷ (0x40, "SetExperience")
    ∷ (0x41, "UpdateHealth")
    ∷ (0x42, "ScoreboardObjective")
    ∷ (0x43, "SetPassengers")
    ∷ (0x44, "Teams")
    ∷ (0x45, "UpdateScore")
    ∷ (0x46, "SpawnPosition")
    ∷ (0x47, "TimeUpdate")
    ∷ (0x48, "Title")
    ∷ (0x49, "SoundEffect")
    ∷ (0x4A, "PlayerListHeaderAndFooter")
    ∷ (0x4B, "CollectItem")
    ∷ (0x4C, "EntityTeleport")
    ∷ (0x4D, "Advancements")
    ∷ (0x4E, "EntityProperties")
    ∷ (0x4F, "EntityEffect")
    ∷ []

abbrev play_to_server : Table
play_to_server =
    (0x00, "TeleportConfirm")
    ∷ (0x01, "TabComplete")
    ∷ (0x02, "ChatMessage")
    ∷ (0x03, "ClientStatus")
    ∷ (0x04, "ClientSettings")
    ∷ (0x05, "ConfirmTransaction")
    ∷ (0x06, "EnchantItem")
    ∷ (0x07, "ClickWindow")
    ∷ (0x08, "CloseWindow")
    ∷ (0x09, "PluginMessage")
    ∷ (0x0A, "UseEntity")
    ∷ (0x0B, "KeepAlive")
    ∷ (0x0C, "Player")
    ∷ (0x0D, "PlayerPosition")
    ∷ (0x0E, "PlayerPositionAndLook")
    ∷ (0x0F, "PlayerLook")
    ∷ (0x10, "VehicleMove")
    ∷ (0x11, "SteerBoat")
    ∷ (0x12, "CraftRecipeRequest")
    ∷ (0x13, "PlayerAbilities")
    ∷ (0x14, "PlayerDigging")
    ∷ (0x15, "EntityAction")
    ∷ (0x16, "SteerVehicle")
    ∷ (0x17, "CraftingBookData")
    ∷ (0x18, "ResourcePackStatus")
    ∷ (0x19, "AdvancementTab")
    ∷ (0x1A, "HeldItemChange")
    ∷ (0x1B, "CreativeInventoryAction")
    ∷ (0x1C, "UpdateSign")
    ∷ (0x1D, "Animation")
    ∷ (0x1E, "Spectate")
    ∷ (0x1F, "PlayerBlockPlacement")
    ∷ (0x20, "UseItem")
    ∷ []

-- `v1_12_2`.
abbrev pub version_340 : Version
version_340 = record {
  version = 340;
  status_tables = record { to_client = status_to_client; to_server = status_to_server };
  login_tables = record { to_client = login_to_client; to_server = login_to_server };
  config_tables = none;
  play_tables = record { to_client = play_to_client; to_server = play_to_server };
}
