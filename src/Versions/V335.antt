-- ===== src/Versions/V335.antt =====
-- src/protocol/versions/v335.rs: the packets of protocol version 335.
use protocraft_framework.Prelude.{[], ◌∷◌, none}
use protocraft_framework.Versions.{Table, Version}

abbrev status_to_client : Table
status_to_client = (0x00, "Response") ∷ (0x01, "Pong") ∷ []

abbrev status_to_server : Table
status_to_server = (0x00, "Request") ∷ (0x01, "Ping") ∷ []

abbrev login_to_client : Table
login_to_client =
    (0x00, "Disconnect")
    ∷ (0x01, "EncryptionRequest")
    ∷ (0x02, "LoginSuccess")
    ∷ (0x03, "SetCompression")
    ∷ []

abbrev login_to_server : Table
login_to_server = (0x00, "LoginStart") ∷ (0x01, "EncryptionResponse") ∷ []

abbrev play_to_client : Table
play_to_client =
    (0x00, "SpawnObject")
    ∷ (0x01, "SpawnExperienceOrb")
    ∷ (0x02, "SpawnGlobalEntity")
    ∷ (0x03, "SpawnMob")
    ∷ (0x04, "SpawnPainting")
    ∷ (0x05, "SpawnPlayer")
    ∷ (0x06, "Animation")
    ∷ (0x07, "Statistics")
    ∷ (0x08, "BlockBreakAnimation")
    ∷ (0x09, "UpdateBlockEntity")
    ∷ (0x0A, "BlockAction")
    ∷ (0x0B, "BlockChange")
    ∷ (0x0C, "BossBar")
    ∷ (0x0D, "ServerDifficulty")
    ∷ (0x0E, "TabComplete")
    ∷ (0x0F, "ChatMessage")
    ∷ (0x10, "MultiBlockChange")
    ∷ (0x11, "ConfirmTransaction")
    ∷ (0x12, "CloseWindow")
    ∷ (0x13, "OpenWindow")
    ∷ (0x14, "WindowItems")
    ∷ (0x15, "WindowProperty")
    ∷ (0x16, "SetSlot")
    ∷ (0x17, "SetCooldown")
    ∷ (0x18, "PluginMessage")
    ∷ (0x19, "NamedSoundEffect")
    ∷ (0x1A, "Disconnect")
    ∷ (0x1B, "EntityStatus")
    ∷ (0x1C, "Explosion")
    ∷ (0x1D, "UnloadChunk")
    ∷ (0x1E, "ChangeGameState")
    ∷ (0x1F, "KeepAlive")
    ∷ (0x20, "ChunkData")
    ∷ (0x21, "Effect")
    ∷ (0x22, "Particle")
    ∷ (0x23, "JoinGame")
    ∷ (0x24, "Map")
    ∷ (0x25, "Entity")
    ∷ (0x26, "EntityRelativeMove")
    ∷ (0x27, "EntityLookAndRelativeMove")
    ∷ (0x28, "EntityLook")
    ∷ (0x29, "VehicleMove")
    ∷ (0x2A, "OpenSignEditor")
    ∷ (0x2B, "PlayerAbilities")
    ∷ (0x2C, "CombatEvent")
    ∷ (0x2D, "PlayerListItem")
    ∷ (0x2E, "PlayerPositionAndLook")
    ∷ (0x2F, "UseBed")
    ∷ (0x30, "UnlockRecipes")
    ∷ (0x31, "DestroyEntities")
    ∷ (0x32, "RemoveEntityEffect")
    ∷ (0x33, "ResourcePackSend")
    ∷ (0x34, "Respawn")
    ∷ (0x35, "EntityHeadLook")
    ∷ (0x36, "SelectAdvancementTab")
    ∷ (0x37, "WorldBorder")
    ∷ (0x38, "Camera")
    ∷ (0x39, "HeldItemChange")
    ∷ (0x3A, "DisplayScoreboard")
    ∷ (0x3B, "EntityMetadata")
    ∷ (0x3C, "AttachEntity")
    ∷ (0x3D, "EntityVelocity")
    ∷ (0x3E, "EntityEquipment")
    ∷ (0x3F, "SetExperience")
    ∷ (0x40, "UpdateHealth")
    ∷ (0x41, "ScoreboardObjective")
    ∷ (0x42, "SetPassengers")
    ∷ (0x43, "Teams")
    ∷ (0x44, "UpdateScore")
    ∷ (0x45, "SpawnPosition")
    ∷ (0x46, "TimeUpdate")
    ∷ (0x47, "Title")
    ∷ (0x48, "SoundEffect")
    ∷ (0x49, "PlayerListHeaderAndFooter")
    ∷ (0x4A, "CollectItem")
    ∷ (0x4B, "EntityTeleport")
    ∷ (0x4C, "Advancements")
    ∷ (0x4D, "EntityProperties")
    ∷ (0x4E, "EntityEffect")
    ∷ []

abbrev play_to_server : Table
play_to_server =
    (0x00, "TeleportConfirm")
    ∷ (0x01, "PrepareCraftingGrid")
    ∷ (0x02, "TabComplete")
    ∷ (0x03, "ChatMessage")
    ∷ (0x04, "ClientStatus")
    ∷ (0x05, "ClientSettings")
    ∷ (0x06, "ConfirmTransaction")
    ∷ (0x07, "EnchantItem")
    ∷ (0x08, "ClickWindow")
    ∷ (0x09, "CloseWindow")
    ∷ (0x0A, "PluginMessage")
    ∷ (0x0B, "UseEntity")
    ∷ (0x0C, "KeepAlive")
    ∷ (0x0D, "Player")
    ∷ (0x0E, "PlayerPosition")
    ∷ (0x0F, "PlayerPositionAndLook")
    ∷ (0x10, "PlayerLook")
    ∷ (0x11, "VehicleMove")
    ∷ (0x12, "SteerBoat")
    ∷ (0x13, "PlayerAbilities")
    ∷ (0x14, "PlayerDigging")
    ∷ (0x15, "EntityAction")
    ∷ (0x16, "SteerVehicle")
    ∷ (0x17, "CraftingBookData")
    ∷ (0x18, "ResourcePackStatus")
    ∷ (0x19, "AdvancementTab")
    ∷ (0x1A, "HeldItemChange")
    ∷ (0x1B, "CreativeInventoryAction")
    ∷ (0x1C, "UpdateSign")
    ∷ (0x1D, "Animation")
    ∷ (0x1E, "Spectate")
    ∷ (0x1F, "PlayerBlockPlacement")
    ∷ (0x20, "UseItem")
    ∷ []

-- `v1_12_0`.
abbrev pub version_335 : Version
version_335 = record {
  version = 335;
  status_tables = record { to_client = status_to_client; to_server = status_to_server };
  login_tables = record { to_client = login_to_client; to_server = login_to_server };
  config_tables = none;
  play_tables = record { to_client = play_to_client; to_server = play_to_server };
}
