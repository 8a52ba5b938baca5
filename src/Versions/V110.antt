-- ===== src/Versions/V110.antt =====
-- src/protocol/versions/v110.rs: the packets of protocol version 110.
use protocraft_framework.Prelude.{[], ◌∷◌, none}
use protocraft_framework.Versions.{Table, Version}

abbrev status_to_client : Table
status_to_client = (0x00, "Response") ∷ (0x01, "Pong") ∷ []

abbrev status_to_server : Table
status_to_server = (0x00, "Request") ∷ (0x01, "Ping") ∷ []

abbrev login_to_client : Table
login_to_client =
    (0x00, "Disconnect")
    ∷ (0x01, "EncryptionRequest")
    ∷ (0x02, "LoginSuccess")
    ∷ (0x03, "SetCompression")
    ∷ []

abbrev login_to_server : Table
login_to_server = (0x00, "LoginStart") ∷ (0x01, "EncryptionResponse") ∷ []

abbrev play_to_client : Table
play_to_client =
    (0x00, "SpawnObject")
    ∷ (0x01, "SpawnExperienceOrb")
    ∷ (0x02, "SpawnGlobalEntity")
    ∷ (0x03, "SpawnMob")
    ∷ (0x04, "SpawnPainting")
    ∷ (0x05, "SpawnPlayer")
    ∷ (0x06, "Animation")
    ∷ (0x07, "Statistics")
    ∷ (0x08, "BlockBreakAnimation")
    ∷ (0x09, "UpdateBlockEntity")
    ∷ (0x0A, "BlockAction")
    ∷ (0x0B, "BlockChange")
    ∷ (0x0C, "BossBar")
    ∷ (0x0D, "ServerDifficulty")
    ∷ (0x0E, "TabComplete")
    ∷ (0x0F, "ChatMessage")
    ∷ (0x10, "MultiBlockChange")
    ∷ (0x11, "ConfirmTransaction")
    ∷ (0x12, "CloseWindow")
    ∷ (0x13, "OpenWindow")
    ∷ (0x14, "WindowItems")
    ∷ (0x15, "WindowProperty")
    ∷ (0x16, "SetSlot")
    ∷ (0x17, "SetCooldown")
    ∷ (0x18, "PluginMessage")
    ∷ (0x19, "NamedSoundEffect")
    ∷ (0x1A, "Disconnect")
    ∷ (0x1B, "EntityStatus")
    ∷ (0x1C, "Explosion")
    ∷ (0x1D, "UnloadChunk")
    ∷ (0x1E, "ChangeGameState")
    ∷ (0x1F, "KeepAlive")
    ∷ (0x20, "ChunkData")
    ∷ (0x21, "Effect")
    ∷ (0x22, "Particle")
    ∷ (0x23, "JoinGame")
    ∷ (0x24, "Map")
    ∷ (0x25, "EntityRelativeMove")
    ∷ (0x26, "EntityLookAndRelativeMove")
    ∷ (0x27, "EntityLook")
    ∷ (0x28, "Entity")
    ∷ (0x29, "VehicleMove")
    ∷ (0x2A, "OpenSignEditor")
    ∷ (0x2B, "PlayerAbilities")
    ∷ (0x2C, "CombatEvent")
    ∷ (0x2D, "PlayerListItem")
    ∷ (0x2E, "PlayerPositionAndLook")
    ∷ (0x2F, "UseBed")
    ∷ (0x30, "DestroyEntities")
    ∷ (0x31, "RemoveEntityEffect")
    ∷ (0x32, "ResourcePackSend")
    ∷ (0x33, "Respawn")
    ∷ (0x34, "EntityHeadLook")
    ∷ (0x35, "WorldBorder")
    ∷ (0x36, "Camera")
    ∷ (0x37, "HeldItemChange")
    ∷ (0x38, "DisplayScoreboard")
    ∷ (0x39, "EntityMetadata")
    ∷ (0x3A, "AttachEntity")
    ∷ (0x3B, "EntityVelocity")
    ∷ (0x3C, "EntityEquipment")
    ∷ (0x3D, "SetExperience")
    ∷ (0x3E, "UpdateHealth")
    ∷ (0x3F, "ScoreboardObjective")
    ∷ (0x40, "SetPassengers")
    ∷ (0x41, "Teams")
    ∷ (0x42, "UpdateScore")
    ∷ (0x43, "SpawnPosition")
    ∷ (0x44, "TimeUpdate")
    ∷ (0x45, "Title")
    ∷ (0x46, "SoundEffect")
    ∷ (0x47, "PlayerListHeaderAndFooter")
    ∷ (0x48, "CollectItem")
    ∷ (0x49, "EntityTeleport")
    ∷ (0x4A, "EntityProperties")
    ∷ (0x4B, "EntityEffect")
    ∷ []

abbrev play_to_server : Table
play_to_server =
    (0x00, "TeleportConfirm")
    ∷ (0x01, "TabComplete")
    ∷ (0x02, "ChatMessage")
    ∷ (0x03, "ClientStatus")
    ∷ (0x04, "ClientSettings")
    ∷ (0x05, "ConfirmTransaction")
    ∷ (0x06, "EnchantItem")
    ∷ (0x07, "ClickWindow")
    ∷ (0x08, "CloseWindow")
    ∷ (0x09, "PluginMessage")
    ∷ (0x0A, "UseEntity")
    ∷ (0x0B, "KeepAlive")
    ∷ (0x0C, "PlayerPosition")
    ∷ (0x0D, "PlayerPositionAndLook")
    ∷ (0x0E, "PlayerLook")
    ∷ (0x0F, "Player")
    ∷ (0x10, "VehicleMove")
    ∷ (0x11, "SteerBoat")
    ∷ (0x12, "PlayerAbilities")
    ∷ (0x13, "PlayerDigging")
    ∷ (0x14, "EntityAction")
    ∷ (0x15, "SteerVehicle")
    ∷ (0x16, "ResourcePackStatus")
    ∷ (0x17, "HeldItemChange")
    ∷ (0x18, "CreativeInventoryAction")
    ∷ (0x19, "UpdateSign")
    ∷ (0x1A, "Animation")
    ∷ (0x1B, "Spectate")
    ∷ (0x1C, "PlayerBlockPlacement")
    ∷ (0x1D, "UseItem")
    ∷ []

-- `v1_9_3`.
abbrev pub version_110 : Version
version_110 = record {
  version = 110;
  status_tables = record { to_client = status_to_client; to_server = status_to_server };
  login_tables = record { to_client = login_to_client; to_server = login_to_server };
  config_tables = none;
  play_tables = record { to_client = play_to_client; to_server = play_to_server };
}
