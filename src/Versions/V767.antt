-- ===== src/Versions/V767.antt =====
-- src/protocol/versions/v767.rs: the packets of protocol version 767.
use protocraft_framework.Prelude.{[], ◌∷◌, some}
use protocraft_framework.Versions.{Table, Version}

abbrev status_to_client : Table
status_to_client = (0x00, "StatusResponse") ∷ (0x01, "PongResponse") ∷ []

abbrev status_to_server : Table
status_to_server = (0x00, "StatusRequest") ∷ (0x01, "PingRequest") ∷ []

abbrev login_to_client : Table
login_to_client =
    (0x00, "Disconnect")
    ∷ (0x01, "EncryptionRequest")
    ∷ (0x02, "LoginSuccess")
    ∷ (0x03, "SetCompression")
    ∷ (0x04, "LoginPluginRequest")
    ∷ (0x05, "CookieRequest")
    ∷ []

abbrev login_to_server : Table
login_to_server =
    (0x00, "LoginStart")
    ∷ (0x01, "EncryptionResponse")
    ∷ (0x02, "LoginPluginResponse")
    ∷ (0x03, "LoginAcknowledged")
    ∷ (0x04, "CookieResponse")
    ∷ []

abbrev config_to_client : Table
config_to_client =
    (0x00, "CookieRequest")
    ∷ (0x01, "PluginMessage")
    ∷ (0x02, "Disconnect")
    ∷ (0x03, "FinishConfiguration")
    ∷ (0x04, "KeepAlive")
    ∷ (0x05, "Ping")
    ∷ (0x06, "ResetChat")
    ∷ (0x07, "RegistryData")
    ∷ (0x08, "RemoveResourcePack")
    ∷ (0x09, "AddResourcePack")
    ∷ (0x0A, "StoreCookie")
    ∷ (0x0B, "Transfer")
    ∷ (0x0C, "FeatureFlags")
    ∷ (0x0D, "UpdateTags")
    ∷ (0x0E, "KnownPacks")
    ∷ (0x0F, "CustomReportDetails")
    ∷ (0x10, "ServerLinks")
    ∷ []

abbrev config_to_server : Table
config_to_server =
    (0x00, "ClientInformation")
    ∷ (0x01, "CookieResponse")
    ∷ (0x02, "PluginMessage")
    ∷ (0x03, "AcknowledgeFinishConfiguration")
    ∷ (0x04, "KeepAlive")
    ∷ (0x05, "Pong")
    ∷ (0x06, "ResourcePackResponse")
    ∷ (0x07, "KnownPacks")
    ∷ []

abbrev play_to_client : Table
play_to_client =
    (0x00, "BundleDelimiter")
    ∷ (0x01, "SpawnEntity")
    ∷ (0x02, "SpawnExperienceOrb")
    ∷ (0x03, "EntityAnimation")
    ∷ (0x04, "AwardStatistics")
    ∷ (0x05, "AcknowledgeBlockChange")
    ∷ (0x06, "SetBlockDestroyStage")
    ∷ (0x07, "BlockEntityData")
    ∷ (0x08, "BlockAction")
    ∷ (0x09, "BlockUpdate")
    ∷ (0x0A, "BossBar")
    ∷ (0x0B, "ChangeDifficulty")
    ∷ (0x0C, "ChunkBatchFinished")
    ∷ (0x0D, "ChunkBatchStart")
    ∷ (0x0E, "ChunkBiomes")
    ∷ (0x0F, "ClearTitles")
    ∷ (0x10, "CommandSuggestionsResponse")
    ∷ (0x11, "Commands")
    ∷ (0x12, "CloseContainer")
    ∷ (0x13, "SetContainerContent")
    ∷ (0x14, "SetContainerProperty")
    ∷ (0x15, "SetContainerSlot")
    ∷ (0x16, "CookieRequest")
    ∷ (0x17, "SetCooldown")
    ∷ (0x18, "ChatSuggestions")
    ∷ (0x19, "PluginMessage")
    ∷ (0x1A, "DamageEvent")
    ∷ (0x1B, "DebugSample")
    ∷ (0x1C, "DeleteMessage")
    ∷ (0x1D, "Disconnect")
    ∷ (0x1E, "DisguisedChatMessage")
    ∷ (0x1F, "EntityEvent")
    ∷ (0x20, "Explosion")
    ∷ (0x21, "UnloadChunk")
    ∷ (0x22, "GameEvent")
    ∷ (0x23, "OpenHorseScreen")
    ∷ (0x24, "HurtAnimation")
    ∷ (0x25, "InitializeWorldBorder")
    ∷ (0x26, "KeepAlive")
    ∷ (0x27, "ChunkDataandUpdateLight")
    ∷ (0x28, "WorldEvent")
    ∷ (0x29, "Particle")
    ∷ (0x2A, "UpdateLight")
    ∷ (0x2B, "Login")
    ∷ (0x2C, "MapData")
    ∷ (0x2D, "MerchantOffers")
    ∷ (0x2E, "UpdateEntityPosition")
    ∷ (0x2F, "UpdateEntityPositionandRotation")
    ∷ (0x30, "UpdateEntityRotation")
    ∷ (0x31, "MoveVehicle")
    ∷ (0x32, "OpenBook")
    ∷ (0x33, "OpenScreen")
    ∷ (0x34, "OpenSignEditor")
    ∷ (0x35, "Ping")
    ∷ (0x36, "PingResponse")
    ∷ (0x37, "PlaceGhostRecipe")
    ∷ (0x38, "PlayerAbilities")
    ∷ (0x39, "PlayerChatMessage")
    ∷ (0x3A, "EndCombat")
    ∷ (0x3B, "EnterCombat")
    ∷ (0x3C, "CombatDeath")
    ∷ (0x3D, "PlayerInfoRemove")
    ∷ (0x3E, "PlayerInfoUpdate")
    ∷ (0x3F, "LookAt")
    ∷ (0x40, "SynchronizePlayerPosition")
    ∷ (0x41, "UpdateRecipeBook")
    ∷ (0x42, "RemoveEntities")
    ∷ (0x43, "RemoveEntityEffect")
    ∷ (0x44, "ResetScore")
    ∷ (0x45, "RemoveResourcePack")
    ∷ (0x46, "AddResourcePack")
    ∷ (0x47, "Respawn")
    ∷ (0x48, "SetHeadRotation")
    ∷ (0x49, "UpdateSectionBlocks")
    ∷ (0x4A, "SelectAdvancementsTab")
    ∷ (0x4B, "ServerData")
    ∷ (0x4C, "SetActionBarText")
    ∷ (0x4D, "SetBorderCenter")
    ∷ (0x4E, "SetBorderLerpSize")
    ∷ (0x4F, "SetBorderSize")
    ∷ (0x50, "SetBorderWarningDelay")
    ∷ (0x51, "SetBorderWarningDistance")
    ∷ (0x52, "SetCamera")
    ∷ (0x53, "SetHeldItem")
    ∷ (0x54, "SetCenterChunk")
    ∷ (0x55, "SetRenderDistance")
    ∷ (0x56, "SetDefaultSpawnPosition")
    ∷ (0x57, "DisplayObjective")
    ∷ (0x58, "SetEntityMetadata")
    ∷ (0x59, "LinkEntities")
    ∷ (0x5A, "SetEntityVelocity")
    ∷ (0x5B, "SetEquipment")
    ∷ (0x5C, "SetExperience")
    ∷ (0x5D, "SetHealth")
    ∷ (0x5E, "UpdateObjectives")
    ∷ (0x5F, "SetPassengers")
    ∷ (0x60, "UpdateTeams")
    ∷ (0x61, "UpdateScore")
    ∷ (0x62, "SetSimulationDistance")
    ∷ (0x63, "SetSubtitleText")
    ∷ (0x64, "UpdateTime")
    ∷ (0x65, "SetTitleText")
    ∷ (0x66, "SetTitleAnimationTimes")
    ∷ (0x67, "EntitySoundEffect")
    ∷ (0x68, "SoundEffect")
    ∷ (0x69, "StartConfiguration")
    ∷ (0x6A, "StopSound")
    ∷ (0x6B, "StoreCookie")
    ∷ (0x6C, "SystemChatMessage")
    ∷ (0x6D, "SetTabListHeaderAndFooter")
    ∷ (0x6E, "TagQueryResponse")
    ∷ (0x6F, "PickupItem")
    ∷ (0x70, "TeleportEntity")
    ∷ (0x71, "SetTickingState")
    ∷ (0x72, "StepTick")
    ∷ (0x73, "Transfer")
    ∷ (0x74, "UpdateAdvancements")
    ∷ (0x75, "UpdateAttributes")
    ∷ (0x76, "EntityEffect")
    ∷ (0x77, "UpdateRecipes")
    ∷ (0x78, "UpdateTags")
    ∷ (0x79, "ProjectilePower")
    ∷ (0x7A, "CustomReportDetails")
    ∷ (0x7B, "ServerLinks")
    ∷ []

abbrev play_to_server : Table
play_to_server =
    (0x00, "ConfirmTeleportation")
    ∷ (0x01, "QueryBlockEntityTag")
    ∷ (0x02, "ChangeDifficulty")
    ∷ (0x03, "AcknowledgeMessage")
    ∷ (0x04, "ChatCommand")
    ∷ (0x05, "SignedChatCommand")
    ∷ (0x06, "ChatMessage")
    ∷ (0x07, "PlayerSession")
    ∷ (0x08, "ChunkBatchReceived")
    ∷ (0x09, "ClientStatus")
    ∷ (0x0A, "ClientInformation")
    ∷ (0x0B, "CommandSuggestionsRequest")
    ∷ (0x0C, "AcknowledgeConfiguration")
    ∷ (0x0D, "ClickContainerButton")
    ∷ (0x0E, "ClickContainer")
    ∷ (0x0F, "CloseContainer")
    ∷ (0x10, "ChangeContainerSlotState")
    ∷ (0x11, "CookieResponse")
    ∷ (0x12, "PluginMessage")
    ∷ (0x13, "DebugSampleSubscription")
    ∷ (0x14, "EditBook")
    ∷ (0x15, "QueryEntityTag")
    ∷ (0x16, "Interact")
    ∷ (0x17, "JigsawGenerate")
    ∷ (0x18, "KeepAlive")
    ∷ (0x19, "LockDifficulty")
    ∷ (0x1A, "SetPlayerPosition")
    ∷ (0x1B, "SetPlayerPositionandRotation")
    ∷ (0x1C, "SetPlayerRotation")
    ∷ (0x1D, "SetPlayerOnGround")
    ∷ (0x1E, "MoveVehicle")
    ∷ (0x1F, "PaddleBoat")
    ∷ (0x20, "PickItem")
    ∷ (0x21, "PingRequest")
    ∷ (0x22, "PlaceRecipe")
    ∷ (0x23, "PlayerAbilities")
    ∷ (0x24, "PlayerAction")
    ∷ (0x25, "PlayerCommand")
    ∷ (0x26, "PlayerInput")
    ∷ (0x27, "Pong")
    ∷ (0x28, "ChangeRecipeBookSettings")
    ∷ (0x29, "SetSeenRecipe")
    ∷ (0x2A, "RenameItem")
    ∷ (0x2B, "ResourcePackResponse")
    ∷ (0x2C, "SeenAdvancements")
    ∷ (0x2D, "SelectTrade")
    ∷ (0x2E, "SetBeaconEffect")
    ∷ (0x2F, "SetHeldItem")
    ∷ (0x30, "ProgramCommandBlock")
    ∷ (0x31, "ProgramCommandBlockMinecart")
    ∷ (0x32, "SetCreativeModeSlot")
    ∷ (0x33, "ProgramJigsawBlock")
    ∷ (0x34, "ProgramStructureBlock")
    ∷ (0x35, "UpdateSign")
    ∷ (0x36, "SwingArm")
    ∷ (0x37, "TeleportToEntity")
    ∷ (0x38, "UseItemOn")
    ∷ (0x39, "UseItem")
    ∷ []

-- `v1_21_0`.
abbrev pub version_767 : Version
version_767 = record {
  version = 767;
  status_tables = record { to_client = status_to_client; to_server = status_to_server };
  login_tables = record { to_client = login_to_client; to_server = login_to_server };
  config_tables = some (record { to_client = config_to_client; to_server = config_to_server });
  play_tables = record { to_client = play_to_client; to_server = play_to_server };
}
