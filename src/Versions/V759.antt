-- ===== src/Versions/V759.antt =====
-- src/protocol/versions/v759.rs: the packets of protocol version 759.
use protocraft_framework.Prelude.{[], ◌∷◌, none}
use protocraft_framework.Versions.{Table, Version}

abbrev status_to_client : Table
status_to_client = (0x00, "StatusResponse") ∷ (0x01, "PingResponse") ∷ []

abbrev status_to_server : Table
status_to_server = (0x00, "StatusRequest") ∷ (0x01, "PingRequest") ∷ []

abbrev login_to_client : Table
login_to_client =
    (0x00, "Disconnect")
    ∷ (0x01, "EncryptionRequest")
    ∷ (0x02, "LoginSuccess")
    ∷ (0x03, "SetCompression")
    ∷ (0x04, "LoginPluginRequest")
    ∷ []

abbrev login_to_server : Table
login_to_server =
    (0x00, "LoginStart") ∷ (0x01, "EncryptionResponse") ∷ (0x02, "LoginPluginResponse") ∷ []

abbrev play_to_client : Table
play_to_client =
    (0x00, "SpawnEntity")
    ∷ (0x01, "SpawnExperienceOrb")
    ∷ (0x02, "SpawnPlayer")
    ∷ (0x03, "EntityAnimation")
    ∷ (0x04, "AwardStatistics")
    ∷ (0x05, "AcknowledgeBlockChange")
    ∷ (0x06, "SetBlockDestroyStage")
    ∷ (0x07, "BlockEntityData")
    ∷ (0x08, "BlockAction")
    ∷ (0x09, "BlockUpdate")
    ∷ (0x0A, "BossBar")
    ∷ (0x0B, "ChangeDifficulty")
    ∷ (0x0C, "ChatPreview")
    ∷ (0x0D, "ClearTitles")
    ∷ (0x0E, "CommandSuggestionsResponse")
    ∷ (0x0F, "Commands")
    ∷ (0x10, "CloseContainer")
    ∷ (0x11, "SetContainerContent")
    ∷ (0x12, "SetContainerProperty")
    ∷ (0x13, "SetContainerSlot")
    ∷ (0x14, "SetCooldown")
    ∷ (0x15, "PluginMessage")
    ∷ (0x16, "CustomSoundEffect")
    ∷ (0x17, "Disconnect")
    ∷ (0x18, "EntityEvent")
    ∷ (0x19, "Explosion")
    ∷ (0x1A, "UnloadChunk")
    ∷ (0x1B, "GameEvent")
    ∷ (0x1C, "OpenHorseScreen")
    ∷ (0x1D, "InitializeWorldBorder")
    ∷ (0x1E, "KeepAlive")
    ∷ (0x1F, "ChunkDataandUpdateLight")
    ∷ (0x20, "WorldEvent")
    ∷ (0x21, "Particle")
    ∷ (0x22, "UpdateLight")
    ∷ (0x23, "Login")
    ∷ (0x24, "MapData")
    ∷ (0x25, "MerchantOffers")
    ∷ (0x26, "UpdateEntityPosition")
    ∷ (0x27, "UpdateEntityPositionandRotation")
    ∷ (0x28, "UpdateEntityRotation")
    ∷ (0x29, "MoveVehicle")
    ∷ (0x2A, "OpenBook")
    ∷ (0x2B, "OpenScreen")
    ∷ (0x2C, "OpenSignEditor")
    ∷ (0x2D, "Ping")
    ∷ (0x2E, "PlaceGhostRecipe")
    ∷ (0x2F, "PlayerAbilities")
    ∷ (0x30, "PlayerChatMessage")
    ∷ (0x31, "EndCombat")
    ∷ (0x32, "EnterCombat")
    ∷ (0x33, "CombatDeath")
    ∷ (0x34, "PlayerInfo")
    ∷ (0x35, "LookAt")
    ∷ (0x36, "SynchronizePlayerPosition")
    ∷ (0x37, "UpdateRecipeBook")
    ∷ (0x38, "RemoveEntities")
    ∷ (0x39, "RemoveEntityEffect")
    ∷ (0x3A, "ResourcePack")
    ∷ (0x3B, "Respawn")
    ∷ (0x3C, "SetHeadRotation")
    ∷ (0x3D, "UpdateSectionBlocks")
    ∷ (0x3E, "SelectAdvancementsTab")
    ∷ (0x3F, "ServerData")
    ∷ (0x40, "SetActionBarText")
    ∷ (0x41, "SetBorderCenter")
    ∷ (0x42, "SetBorderLerpSize")
    ∷ (0x43, "SetBorderSize")
    ∷ (0x44, "SetBorderWarningDelay")
    ∷ (0x45, "SetBorderWarningDistance")
    ∷ (0x46, "SetCamera")
    ∷ (0x47, "SetHeldItem")
    ∷ (0x48, "SetCenterChunk")
    ∷ (0x49, "SetRenderDistance")
    ∷ (0x4A, "SetDefaultSpawnPosition")
    ∷ (0x4B, "SetDisplayChatPreview")
    ∷ (0x4C, "DisplayObjective")
    ∷ (0x4D, "SetEntityMetadata")
    ∷ (0x4E, "LinkEntities")
    ∷ (0x4F, "SetEntityVelocity")
    ∷ (0x50, "SetEquipment")
    ∷ (0x51, "SetExperience")
    ∷ (0x52, "SetHealth")
    ∷ (0x53, "UpdateObjectives")
    ∷ (0x54, "SetPassengers")
    ∷ (0x55, "UpdateTeams")
    ∷ (0x56, "UpdateScore")
    ∷ (0x57, "SetSimulationDistance")
    ∷ (0x58, "SetSubtitleText")
    ∷ (0x59, "UpdateTime")
    ∷ (0x5A, "SetTitleText")
    ∷ (0x5B, "SetTitleAnimationTimes")
    ∷ (0x5C, "EntitySoundEffect")
    ∷ (0x5D, "SoundEffect")
    ∷ (0x5E, "StopSound")
    ∷ (0x5F, "SystemChatMessage")
    ∷ (0x60, "SetTabListHeaderAndFooter")
    ∷ (0x61, "TagQueryResponse")
    ∷ (0x62, "PickupItem")
    ∷ (0x63, "TeleportEntity")
    ∷ (0x64, "UpdateAdvancements")
    ∷ (0x65, "UpdateAttributes")
    ∷ (0x66, "EntityEffect")
    ∷ (0x67, "UpdateRecipes")
    ∷ (0x68, "UpdateTags")
    ∷ []

abbrev play_to_server : Table
play_to_server =
    (0x00, "ConfirmTeleportation")
    ∷ (0x01, "QueryBlockEntityTag")
    ∷ (0x02, "ChangeDifficulty")
    ∷ (0x03, "ChatCommand")
    ∷ (0x04, "ChatMessage")
    ∷ (0x05, "ChatPreview")
    ∷ (0x06, "ClientCommand")
    ∷ (0x07, "ClientInformation")
    ∷ (0x08, "CommandSuggestionsRequest")
    ∷ (0x09, "ClickContainerButton")
    ∷ (0x0A, "ClickContainer")
    ∷ (0x0B, "CloseContainer")
    ∷ (0x0C, "PluginMessage")
    ∷ (0x0D, "EditBook")
    ∷ (0x0E, "QueryEntityTag")
    ∷ (0x0F, "Interact")
    ∷ (0x10, "JigsawGenerate")
    ∷ (0x11, "KeepAlive")
    ∷ (0x12, "LockDifficulty")
    ∷ (0x13, "SetPlayerPosition")
    ∷ (0x14, "SetPlayerPositionandRotation")
    ∷ (0x15, "SetPlayerRotation")
    ∷ (0x16, "SetPlayerOnGround")
    ∷ (0x17, "MoveVehicle")
    ∷ (0x18, "PaddleBoat")
    ∷ (0x19, "PickItem")
    ∷ (0x1A, "PlaceRecipe")
    ∷ (0x1B, "PlayerAbilities")
    ∷ (0x1C, "PlayerAction")
    ∷ (0x1D, "PlayerCommand")
    ∷ (0x1E, "PlayerInput")
    ∷ (0x1F, "Pong")
    ∷ (0x20, "ChangeRecipeBookSettings")
    ∷ (0x21, "SetSeenRecipe")
    ∷ (0x22, "RenameItem")
    ∷ (0x23, "ResourcePack")
    ∷ (0x24, "SeenAdvancements")
    ∷ (0x25, "SelectTrade")
    ∷ (0x26, "SetBeaconEffect")
    ∷ (0x27, "SetHeldItem")
    ∷ (0x28, "ProgramCommandBlock")
    ∷ (0x29, "ProgramCommandBlockMinecart")
    ∷ (0x2A, "SetCreativeModeSlot")
    ∷ (0x2B, "ProgramJigsawBlock")
    ∷ (0x2C, "ProgramStructureBlock")
    ∷ (0x2D, "UpdateSign")
    ∷ (0x2E, "SwingArm")
    ∷ (0x2F, "TeleportToEntity")
    ∷ (0x30, "UseItemOn")
    ∷ (0x31, "UseItem")
    ∷ []

-- `v1_19_0`.
abbrev pub version_759 : Version
version_759 = record {
  version = 759;
  status_tables = record { to_client = status_to_client; to_server = status_to_server };
  login_tables = record { to_client = login_to_client; to_server = login_to_server };
  config_tables = none;
  play_tables = record { to_client = play_to_client; to_server = play_to_server };
}
