-- ===== src/Versions/V769.antt =====
-- src/protocol/versions/v769.rs: the packets of protocol version 769.
use protocraft_framework.Prelude.{[], ◌∷◌, some}
use protocraft_framework.Versions.{Table, Version}

abbrev status_to_client : Table
status_to_client = (0x00, "StatusResponse") ∷ (0x01, "PongResponse") ∷ []

abbrev status_to_server : Table
status_to_server = (0x00, "StatusRequest") ∷ (0x01, "PingRequest") ∷ []

abbrev login_to_client : Table
login_to_client =
    (0x00, "Disconnect")
    ∷ (0x01, "EncryptionRequest")
    ∷ (0x02, "LoginSuccess")
    ∷ (0x03, "SetCompression")
    ∷ (0x04, "LoginPluginRequest")
    ∷ (0x05, "CookieRequest")
    ∷ []

abbrev login_to_server : Table
login_to_server =
    (0x00, "LoginStart")
    ∷ (0x01, "EncryptionResponse")
    ∷ (0x02, "LoginPluginResponse")
    ∷ (0x03, "LoginAcknowledged")
    ∷ (0x04, "CookieResponse")
    ∷ []

abbrev config_to_client : Table
config_to_client =
    (0x00, "CookieRequest")
    ∷ (0x01, "PluginMessage")
    ∷ (0x02, "Disconnect")
    ∷ (0x03, "FinishConfiguration")
    ∷ (0x04, "KeepAlive")
    ∷ (0x05, "Ping")
    ∷ (0x06, "ResetChat")
    ∷ (0x07, "RegistryData")
    ∷ (0x08, "RemoveResourcePack")
    ∷ (0x09, "AddResourcePack")
    ∷ (0x0A, "StoreCookie")
    ∷ (0x0B, "Transfer")
    ∷ (0x0C, "FeatureFlags")
    ∷ (0x0D, "UpdateTags")
    ∷ (0x0E, "KnownPacks")
    ∷ (0x0F, "CustomReportDetails")
    ∷ (0x10, "ServerLinks")
    ∷ []

abbrev config_to_server : Table
config_to_server =
    (0x00, "ClientInformation")
    ∷ (0x01, "CookieResponse")
    ∷ (0x02, "PluginMessage")
    ∷ (0x03, "AcknowledgeFinishConfiguration")
    ∷ (0x04, "KeepAlive")
    ∷ (0x05, "Pong")
    ∷ (0x06, "ResourcePackResponse")
    ∷ (0x07, "KnownPacks")
    ∷ []

abbrev play_to_client : Table
play_to_client =
    (0x00, "BundleDelimiter")
    ∷ (0x01, "SpawnEntity")
    ∷ (0x02, "SpawnExperienceOrb")
    ∷ (0x03, "EntityAnimation")
    ∷ (0x04, "AwardStatistics")
    ∷ (0x05, "AcknowledgeBlockChange")
    ∷ (0x06, "SetBlockDestroyStage")
    ∷ (0x07, "BlockEntityData")
    ∷ (0x08, "BlockAction")
    ∷ (0x09, "BlockUpdate")
    ∷ (0x0A, "BossBar")
    ∷ (0x0B, "ChangeDifficulty")
    ∷ (0x0C, "ChunkBatchFinished")
    ∷ (0x0D, "ChunkBatchStart")
    ∷ (0x0E, "ChunkBiomes")
    ∷ (0x0F, "ClearTitles")
    ∷ (0x10, "CommandSuggestionsResponse")
    ∷ (0x11, "Commands")
    ∷ (0x12, "CloseContainer")
    ∷ (0x13, "SetContainerContent")
    ∷ (0x14, "SetContainerProperty")
    ∷ (0x15, "SetContainerSlot")
    ∷ (0x16, "CookieRequest")
    ∷ (0x17, "SetCooldown")
    ∷ (0x18, "ChatSuggestions")
    ∷ (0x19, "PluginMessage")
    ∷ (0x1A, "DamageEvent")
    ∷ (0x1B, "DebugSample")
    ∷ (0x1C, "DeleteMessage")
    ∷ (0x1D, "Disconnect")
    ∷ (0x1E, "DisguisedChatMessage")
    ∷ (0x1F, "EntityEvent")
    ∷ (0x20, "TeleportEntity")
    ∷ (0x21, "Explosion")
    ∷ (0x22, "UnloadChunk")
    ∷ (0x23, "GameEvent")
    ∷ (0x24, "OpenHorseScreen")
    ∷ (0x25, "HurtAnimation")
    ∷ (0x26, "InitializeWorldBorder")
    ∷ (0x27, "KeepAlive")
    ∷ (0x28, "ChunkDataandUpdateLight")
    ∷ (0x29, "WorldEvent")
    ∷ (0x2A, "Particle")
    ∷ (0x2B, "UpdateLight")
    ∷ (0x2C, "Login")
    ∷ (0x2D, "MapData")
    ∷ (0x2E, "MerchantOffers")
    ∷ (0x2F, "UpdateEntityPosition")
    ∷ (0x30, "UpdateEntityPositionandRotation")
    ∷ (0x31, "MoveMinecartAlongTrack")
    ∷ (0x32, "UpdateEntityRotation")
    ∷ (0x33, "MoveVehicle")
    ∷ (0x34, "OpenBook")
    ∷ (0x35, "OpenScreen")
    ∷ (0x36, "OpenSignEditor")
    ∷ (0x37, "Ping")
    ∷ (0x38, "PingResponse")
    ∷ (0x39, "PlaceGhostRecipe")
    ∷ (0x3A, "PlayerAbilities")
    ∷ (0x3B, "PlayerChatMessage")
    ∷ (0x3C, "EndCombat")
    ∷ (0x3D, "EnterCombat")
    ∷ (0x3E, "CombatDeath")
    ∷ (0x3F, "PlayerInfoRemove")
    ∷ (0x40, "PlayerInfoUpdate")
    ∷ (0x41, "LookAt")
    ∷ (0x42, "SynchronizePlayerPosition")
    ∷ (0x43, "PlayerRotation")
    ∷ (0x44, "RecipeBookAdd")
    ∷ (0x45, "RecipeBookRemove")
    ∷ (0x46, "RecipeBookSettings")
    ∷ (0x47, "RemoveEntities")
    ∷ (0x48, "RemoveEntityEffect")
    ∷ (0x49, "ResetScore")
    ∷ (0x4A, "RemoveResourcePack")
    ∷ (0x4B, "AddResourcePack")
    ∷ (0x4C, "Respawn")
    ∷ (0x4D, "SetHeadRotation")
    ∷ (0x4E, "UpdateSectionBlocks")
    ∷ (0x4F, "SelectAdvancementsTab")
    ∷ (0x50, "ServerData")
    ∷ (0x51, "SetActionBarText")
    ∷ (0x52, "SetBorderCenter")
    ∷ (0x53, "SetBorderLerpSize")
    ∷ (0x54, "SetBorderSize")
    ∷ (0x55, "SetBorderWarningDelay")
    ∷ (0x56, "SetBorderWarningDistance")
    ∷ (0x57, "SetCamera")
    ∷ (0x58, "SetCenterChunk")
    ∷ (0x59, "SetRenderDistance")
    ∷ (0x5A, "SetCursorItem")
    ∷ (0x5B, "SetDefaultSpawnPosition")
    ∷ (0x5C, "DisplayObjective")
    ∷ (0x5D, "SetEntityMetadata")
    ∷ (0x5E, "LinkEntities")
    ∷ (0x5F, "SetEntityVelocity")
    ∷ (0x60, "SetEquipment")
    ∷ (0x61, "SetExperience")
    ∷ (0x62, "SetHealth")
    ∷ (0x63, "SetHeldItem")
    ∷ (0x64, "UpdateObjectives")
    ∷ (0x65, "SetPassengers")
    ∷ (0x66, "SetPlayerInventorySlot")
    ∷ (0x67, "UpdateTeams")
    ∷ (0x68, "UpdateScore")
    ∷ (0x69, "SetSimulationDistance")
    ∷ (0x6A, "SetSubtitleText")
    ∷ (0x6B, "UpdateTime")
    ∷ (0x6C, "SetTitleText")
    ∷ (0x6D, "SetTitleAnimationTimes")
    ∷ (0x6E, "EntitySoundEffect")
    ∷ (0x6F, "SoundEffect")
    ∷ (0x70, "StartConfiguration")
    ∷ (0x71, "StopSound")
    ∷ (0x72, "StoreCookie")
    ∷ (0x73, "SystemChatMessage")
    ∷ (0x74, "SetTabListHeaderAndFooter")
    ∷ (0x75, "TagQueryResponse")
    ∷ (0x76, "PickupItem")
    ∷ (0x77, "SynchronizeVehiclePosition")
    ∷ (0x78, "SetTickingState")
    ∷ (0x79, "StepTick")
    ∷ (0x7A, "Transfer")
    ∷ (0x7B, "UpdateAdvancements")
    ∷ (0x7C, "UpdateAttributes")
    ∷ (0x7D, "EntityEffect")
    ∷ (0x7E, "UpdateRecipes")
    ∷ (0x7F, "UpdateTags")
    ∷ (0x80, "ProjectilePower")
    ∷ (0x81, "CustomReportDetails")
    ∷ (0x82, "ServerLinks")
    ∷ []

abbrev play_to_server : Table
play_to_server =
    (0x00, "ConfirmTeleportation")
    ∷ (0x01, "QueryBlockEntityTag")
    ∷ (0x02, "BundleItemSelected")
    ∷ (0x03, "ChangeDifficulty")
    ∷ (0x04, "AcknowledgeMessage")
    ∷ (0x05, "ChatCommand")
    ∷ (0x06, "SignedChatCommand")
    ∷ (0x07, "ChatMessage")
    ∷ (0x08, "PlayerSession")
    ∷ (0x09, "ChunkBatchReceived")
    ∷ (0x0A, "ClientStatus")
    ∷ (0x0B, "ClientTickEnd")
    ∷ (0x0C, "ClientInformation")
    ∷ (0x0D, "CommandSuggestionsRequest")
    ∷ (0x0E, "AcknowledgeConfiguration")
    ∷ (0x0F, "ClickContainerButton")
    ∷ (0x10, "ClickContainer")
    ∷ (0x11, "CloseContainer")
    ∷ (0x12, "ChangeContainerSlotState")
    ∷ (0x13, "CookieResponse")
    ∷ (0x14, "PluginMessage")
    ∷ (0x15, "DebugSampleSubscription")
    ∷ (0x16, "EditBook")
    ∷ (0x17, "QueryEntityTag")
    ∷ (0x18, "Interact")
    ∷ (0x19, "JigsawGenerate")
    ∷ (0x1A, "KeepAlive")
    ∷ (0x1B, "LockDifficulty")
    ∷ (0x1C, "SetPlayerPosition")
    ∷ (0x1D, "SetPlayerPositionandRotation")
    ∷ (0x1E, "SetPlayerRotation")
    ∷ (0x1F, "SetPlayerMovementFlags")
    ∷ (0x20, "MoveVehicle")
    ∷ (0x21, "PaddleBoat")
    ∷ (0x22, "PickItemFromBlock")
    ∷ (0x23, "PickItemFromEntity")
    ∷ (0x24, "PingRequest")
    ∷ (0x25, "PlaceRecipe")
    ∷ (0x26, "PlayerAbilities")
    ∷ (0x27, "PlayerAction")
    ∷ (0x28, "PlayerCommand")
    ∷ (0x29, "PlayerInput")
    ∷ (0x2A, "PlayerLoaded")
    ∷ (0x2B, "Pong")
    ∷ (0x2C, "ChangeRecipeBookSettings")
    ∷ (0x2D, "SetSeenRecipe")
    ∷ (0x2E, "RenameItem")
    ∷ (0x2F, "ResourcePackResponse")
    ∷ (0x30, "SeenAdvancements")
    ∷ (0x31, "SelectTrade")
    ∷ (0x32, "SetBeaconEffect")
    ∷ (0x33, "SetHeldItem")
    ∷ (0x34, "ProgramCommandBlock")
    ∷ (0x35, "ProgramCommandBlockMinecart")
    ∷ (0x36, "SetCreativeModeSlot")
    ∷ (0x37, "ProgramJigsawBlock")
    ∷ (0x38, "ProgramStructureBlock")
    ∷ (0x39, "UpdateSign")
    ∷ (0x3A, "SwingArm")
    ∷ (0x3B, "TeleportToEntity")
    ∷ (0x3C, "UseItemOn")
    ∷ (0x3D, "UseItem")
    ∷ []

-- `v1_21_4`.
abbrev pub version_769 : Version
version_769 = record {
  version = 769;
  status_tables = record { to_client = status_to_client; to_server = status_to_server };
  login_tables = record { to_client = login_to_client; to_server = login_to_server };
  config_tables = some (record { to_client = config_to_client; to_server = config_to_server });
  play_tables = record { to_client = play_to_client; to_server = play_to_server };
}
