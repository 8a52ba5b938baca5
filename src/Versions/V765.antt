-- ===== src/Versions/V765.antt =====
-- src/protocol/versions/v765.rs: the packets of protocol version 765.
use protocraft_framework.Prelude.{[], ◌∷◌, some}
use protocraft_framework.Versions.{Table, Version}

abbrev status_to_client : Table
status_to_client = (0x00, "StatusResponse") ∷ (0x01, "PingResponse") ∷ []

abbrev status_to_server : Table
status_to_server = (0x00, "StatusRequest") ∷ (0x01, "PingRequest") ∷ []

abbrev login_to_client : Table
login_to_client =
    (0x00, "Disconnect")
    ∷ (0x01, "EncryptionRequest")
    ∷ (0x02, "LoginSuccess")
    ∷ (0x03, "SetCompression")
    ∷ (0x04, "LoginPluginRequest")
    ∷ []

abbrev login_to_server : Table
login_to_server =
    (0x00, "LoginStart")
    ∷ (0x01, "EncryptionResponse")
    ∷ (0x02, "LoginPluginResponse")
    ∷ (0x03, "LoginAcknowledged")
    ∷ []

abbrev config_to_client : Table
config_to_client =
    (0x00, "PluginMessage")
    ∷ (0x01, "Disconnect")
    ∷ (0x02, "FinishConfiguration")
    ∷ (0x03, "KeepAlive")
    ∷ (0x04, "Ping")
    ∷ (0x05, "RegistryData")
    ∷ (0x06, "RemoveResourcePack")
    ∷ (0x07, "AddResourcePack")
    ∷ (0x08, "FeatureFlags")
    ∷ (0x09, "UpdateTags")
    ∷ []

abbrev config_to_server : Table
config_to_server =
    (0x00, "ClientInformation")
    ∷ (0x01, "PluginMessage")
    ∷ (0x02, "FinishConfiguration")
    ∷ (0x03, "KeepAlive")
    ∷ (0x04, "Pong")
    ∷ (0x05, "ResourcePackResponse")
    ∷ []

abbrev play_to_client : Table
play_to_client =
    (0x00, "BundleDelimiter")
    ∷ (0x01, "SpawnEntity")
    ∷ (0x02, "SpawnExperienceOrb")
    ∷ (0x03, "EntityAnimation")
    ∷ (0x04, "AwardStatistics")
    ∷ (0x05, "AcknowledgeBlockChange")
    ∷ (0x06, "SetBlockDestroyStage")
    ∷ (0x07, "BlockEntityData")
    ∷ (0x08, "BlockAction")
    ∷ (0x09, "BlockUpdate")
    ∷ (0x0A, "BossBar")
    ∷ (0x0B, "ChangeDifficulty")
    ∷ (0x0C, "ChunkBatchFinished")
    ∷ (0x0D, "ChunkBatchStart")
    ∷ (0x0E, "ChunkBiomes")
    ∷ (0x0F, "ClearTitles")
    ∷ (0x10, "CommandSuggestionsResponse")
    ∷ (0x11, "Commands")
    ∷ (0x12, "CloseContainer")
    ∷ (0x13, "SetContainerContent")
    ∷ (0x14, "SetContainerProperty")
    ∷ (0x15, "SetContainerSlot")
    ∷ (0x16, "SetCooldown")
    ∷ (0x17, "ChatSuggestions")
    ∷ (0x18, "PluginMessage")
    ∷ (0x19, "DamageEvent")
    ∷ (0x1A, "DeleteMessage")
    ∷ (0x1B, "Disconnect")
    ∷ (0x1C, "DisguisedChatMessage")
    ∷ (0x1D, "EntityEvent")
    ∷ (0x1E, "Explosion")
    ∷ (0x1F, "UnloadChunk")
    ∷ (0x20, "GameEvent")
    ∷ (0x21, "OpenHorseScreen")
    ∷ (0x22, "HurtAnimation")
    ∷ (0x23, "InitializeWorldBorder")
    ∷ (0x24, "KeepAlive")
    ∷ (0x25, "ChunkDataandUpdateLight")
    ∷ (0x26, "WorldEvent")
    ∷ (0x27, "Particle")
    ∷ (0x28, "UpdateLight")
    ∷ (0x29, "Login")
    ∷ (0x2A, "MapData")
    ∷ (0x2B, "MerchantOffers")
    ∷ (0x2C, "UpdateEntityPosition")
    ∷ (0x2D, "UpdateEntityPositionandRotation")
    ∷ (0x2E, "UpdateEntityRotation")
    ∷ (0x2F, "MoveVehicle")
    ∷ (0x30, "OpenBook")
    ∷ (0x31, "OpenScreen")
    ∷ (0x32, "OpenSignEditor")
    ∷ (0x33, "Ping")
    ∷ (0x34, "PingResponse")
    ∷ (0x35, "PlaceGhostRecipe")
    ∷ (0x36, "PlayerAbilities")
    ∷ (0x37, "PlayerChatMessage")
    ∷ (0x38, "EndCombat")
    ∷ (0x39, "EnterCombat")
    ∷ (0x3A, "CombatDeath")
    ∷ (0x3B, "PlayerInfoRemove")
    ∷ (0x3C, "PlayerInfoUpdate")
    ∷ (0x3D, "LookAt")
    ∷ (0x3E, "SynchronizePlayerPosition")
    ∷ (0x3F, "UpdateRecipeBook")
    ∷ (0x40, "RemoveEntities")
    ∷ (0x41, "RemoveEntityEffect")
    ∷ (0x42, "ResetScore")
    ∷ (0x43, "RemoveResourcePack")
    ∷ (0x44, "AddResourcePack")
    ∷ (0x45, "Respawn")
    ∷ (0x46, "SetHeadRotation")
    ∷ (0x47, "UpdateSectionBlocks")
    ∷ (0x48, "SelectAdvancementsTab")
    ∷ (0x49, "ServerData")
    ∷ (0x4A, "SetActionBarText")
    ∷ (0x4B, "SetBorderCenter")
    ∷ (0x4C, "SetBorderLerpSize")
    ∷ (0x4D, "SetBorderSize")
    ∷ (0x4E, "SetBorderWarningDelay")
    ∷ (0x4F, "SetBorderWarningDistance")
    ∷ (0x50, "SetCamera")
    ∷ (0x51, "SetHeldItem")
    ∷ (0x52, "SetCenterChunk")
    ∷ (0x53, "SetRenderDistance")
    ∷ (0x54, "SetDefaultSpawnPosition")
    ∷ (0x55, "DisplayObjective")
    ∷ (0x56, "SetEntityMetadata")
    ∷ (0x57, "LinkEntities")
    ∷ (0x58, "SetEntityVelocity")
    ∷ (0x59, "SetEquipment")
    ∷ (0x5A, "SetExperience")
    ∷ (0x5B, "SetHealth")
    ∷ (0x5C, "UpdateObjectives")
    ∷ (0x5D, "SetPassengers")
    ∷ (0x5E, "UpdateTeams")
    ∷ (0x5F, "UpdateScore")
    ∷ (0x60, "SetSimulationDistance")
    ∷ (0x61, "SetSubtitleText")
    ∷ (0x62, "UpdateTime")
    ∷ (0x63, "SetTitleText")
    ∷ (0x64, "SetTitleAnimationTimes")
    ∷ (0x65, "EntitySoundEffect")
    ∷ (0x66, "SoundEffect")
    ∷ (0x67, "StartConfiguration")
    ∷ (0x68, "StopSound")
    ∷ (0x69, "SystemChatMessage")
    ∷ (0x6A, "SetTabListHeaderAndFooter")
    ∷ (0x6B, "TagQueryResponse")
    ∷ (0x6C, "PickupItem")
    ∷ (0x6D, "TeleportEntity")
    ∷ (0x6E, "SetTickingState")
    ∷ (0x6F, "StepTick")
    ∷ (0x70, "UpdateAdvancements")
    ∷ (0x71, "UpdateAttributes")
    ∷ (0x72, "EntityEffect")
    ∷ (0x73, "UpdateRecipes")
    ∷ (0x74, "UpdateTags")
    ∷ []

abbrev play_to_server : Table
play_to_server =
    (0x00, "ConfirmTeleportation")
    ∷ (0x01, "QueryBlockEntityTag")
    ∷ (0x02, "ChangeDifficulty")
    ∷ (0x03, "AcknowledgeMessage")
    ∷ (0x04, "ChatCommand")
    ∷ (0x05, "ChatMessage")
    ∷ (0x06, "PlayerSession")
    ∷ (0x07, "ChunkBatchReceived")
    ∷ (0x08, "ClientStatus")
    ∷ (0x09, "ClientInformation")
    ∷ (0x0A, "CommandSuggestionsRequest")
    ∷ (0x0B, "AcknowledgeConfiguration")
    ∷ (0x0C, "ClickContainerButton")
    ∷ (0x0D, "ClickContainer")
    ∷ (0x0E, "CloseContainer")
    ∷ (0x0F, "ChangeContainerSlotState")
    ∷ (0x10, "PluginMessage")
    ∷ (0x11, "EditBook")
    ∷ (0x12, "QueryEntityTag")
    ∷ (0x13, "Interact")
    ∷ (0x14, "JigsawGenerate")
    ∷ (0x15, "KeepAlive")
    ∷ (0x16, "LockDifficulty")
    ∷ (0x17, "SetPlayerPosition")
    ∷ (0x18, "SetPlayerPositionandRotation")
    ∷ (0x19, "SetPlayerRotation")
    ∷ (0x1A, "SetPlayerOnGround")
    ∷ (0x1B, "MoveVehicle")
    ∷ (0x1C, "PaddleBoat")
    ∷ (0x1D, "PickItem")
    ∷ (0x1E, "PingRequest")
    ∷ (0x1F, "PlaceRecipe")
    ∷ (0x20, "PlayerAbilities")
    ∷ (0x21, "PlayerAction")
    ∷ (0x22, "PlayerCommand")
    ∷ (0x23, "PlayerInput")
    ∷ (0x24, "Pong")
    ∷ (0x25, "ChangeRecipeBookSettings")
    ∷ (0x26, "SetSeenRecipe")
    ∷ (0x27, "RenameItem")
    ∷ (0x28, "ResourcePackResponse")
    ∷ (0x29, "SeenAdvancements")
    ∷ (0x2A, "SelectTrade")
    ∷ (0x2B, "SetBeaconEffect")
    ∷ (0x2C, "SetHeldItem")
    ∷ (0x2D, "ProgramCommandBlock")
    ∷ (0x2E, "ProgramCommandBlockMinecart")
    ∷ (0x2F, "SetCreativeModeSlot")
    ∷ (0x30, "ProgramJigsawBlock")
    ∷ (0x31, "ProgramStructureBlock")
    ∷ (0x32, "UpdateSign")
    ∷ (0x33, "SwingArm")
    ∷ (0x34, "TeleportToEntity")
    ∷ (0x35, "UseItemOn")
    ∷ (0x36, "UseItem")
    ∷ []

-- `v1_20_3`.
abbrev pub version_765 : Version
version_765 = record {
  version = 765;
  status_tables = record { to_client = status_to_client; to_server = status_to_server };
  login_tables = record { to_client = login_to_client; to_server = login_to_server };
  config_tables = some (record { to_client = config_to_client; to_server = config_to_server });
  play_tables = record { to_client = play_to_client; to_server = play_to_server };
}
