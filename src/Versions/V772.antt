-- ===== src/Versions/V772.antt =====
-- src/protocol/versions/v772.rs: the packets of protocol version 772.
use protocraft_framework.Prelude.{[], ◌∷◌, some}
use protocraft_framework.Versions.{Table, Version}

abbrev status_to_client : Table
status_to_client = (0x00, "StatusResponse") ∷ (0x01, "PongResponse") ∷ []

abbrev status_to_server : Table
status_to_server = (0x00, "StatusRequest") ∷ (0x01, "PingRequest") ∷ []

abbrev login_to_client : Table
login_to_client =
    (0x00, "Disconnect")
    ∷ (0x01, "EncryptionRequest")
    ∷ (0x02, "LoginSuccess")
    ∷ (0x03, "SetCompression")
    ∷ (0x04, "LoginPluginRequest")
    ∷ (0x05, "CookieRequest")
    ∷ []

abbrev login_to_server : Table
login_to_server =
    (0x00, "LoginStart")
    ∷ (0x01, "EncryptionResponse")
    ∷ (0x02, "LoginPluginResponse")
    ∷ (0x03, "LoginAcknowledged")
    ∷ (0x04, "CookieResponse")
    ∷ []

abbrev config_to_client : Table
config_to_client =
    (0x00, "CookieRequest")
    ∷ (0x01, "PluginMessage")
    ∷ (0x02, "Disconnect")
    ∷ (0x03, "FinishConfiguration")
    ∷ (0x04, "KeepAlive")
    ∷ (0x05, "Ping")
    ∷ (0x06, "ResetChat")
    ∷ (0x07, "RegistryData")
    ∷ (0x08, "RemoveResourcePack")
    ∷ (0x09, "AddResourcePack")
    ∷ (0x0A, "StoreCookie")
    ∷ (0x0B, "Transfer")
    ∷ (0x0C, "FeatureFlags")
    ∷ (0x0D, "UpdateTags")
    ∷ (0x0E, "KnownPacks")
    ∷ (0x0F, "CustomReportDetails")
    ∷ (0x10, "ServerLinks")
    ∷ (0x11, "ClearDialog")
    ∷ (0x12, "ShowDialog")
    ∷ []

abbrev config_to_server : Table
config_to_server =
    (0x00, "ClientInformation")
    ∷ (0x01, "CookieResponse")
    ∷ (0x02, "PluginMessage")
    ∷ (0x03, "AcknowledgeFinishConfiguration")
    ∷ (0x04, "KeepAlive")
    ∷ (0x05, "Pong")
    ∷ (0x06, "ResourcePackResponse")
    ∷ (0x07, "KnownPacks")
    ∷ (0x08, "CustomClickAction")
    ∷ []

abbrev play_to_client : Table
play_to_client =
    (0x00, "BundleDelimiter")
    ∷ (0x01, "SpawnEntity")
    ∷ (0x02, "EntityAnimation")
    ∷ (0x03, "AwardStatistics")
    ∷ (0x04, "AcknowledgeBlockChange")
    ∷ (0x05, "SetBlockDestroyStage")
    ∷ (0x06, "BlockEntityData")
    ∷ (0x07, "BlockAction")
    ∷ (0x08, "BlockUpdate")
    ∷ (0x09, "BossBar")
    ∷ (0x0A, "ChangeDifficulty")
    ∷ (0x0B, "ChunkBatchFinished")
    ∷ (0x0C, "ChunkBatchStart")
    ∷ (0x0D, "ChunkBiomes")
    ∷ (0x0E, "ClearTitles")
    ∷ (0x0F, "CommandSuggestionsResponse")
    ∷ (0x10, "Commands")
    ∷ (0x11, "CloseContainer")
    ∷ (0x12, "SetContainerContent")
    ∷ (0x13, "SetContainerProperty")
    ∷ (0x14, "SetContainerSlot")
    ∷ (0x15, "CookieRequest")
    ∷ (0x16, "SetCooldown")
    ∷ (0x17, "ChatSuggestions")
    ∷ (0x18, "PluginMessage")
    ∷ (0x19, "DamageEvent")
    ∷ (0x1A, "DebugSample")
    ∷ (0x1B, "DeleteMessage")
    ∷ (0x1C, "Disconnect")
    ∷ (0x1D, "DisguisedChatMessage")
    ∷ (0x1E, "EntityEvent")
    ∷ (0x1F, "TeleportEntity")
    ∷ (0x20, "Explosion")
    ∷ (0x21, "UnloadChunk")
    ∷ (0x22, "GameEvent")
    ∷ (0x23, "OpenHorseScreen")
    ∷ (0x24, "HurtAnimation")
    ∷ (0x25, "InitializeWorldBorder")
    ∷ (0x26, "KeepAlive")
    ∷ (0x27, "ChunkDataandUpdateLight")
    ∷ (0x28, "WorldEvent")
    ∷ (0x29, "Particle")
    ∷ (0x2A, "UpdateLight")
    ∷ (0x2B, "Login")
    ∷ (0x2C, "MapData")
    ∷ (0x2D, "MerchantOffers")
    ∷ (0x2E, "UpdateEntityPosition")
    ∷ (0x2F, "UpdateEntityPositionandRotation")
    ∷ (0x30, "MoveMinecartAlongTrack")
    ∷ (0x31, "UpdateEntityRotation")
    ∷ (0x32, "MoveVehicle")
    ∷ (0x33, "OpenBook")
    ∷ (0x34, "OpenScreen")
    ∷ (0x35, "OpenSignEditor")
    ∷ (0x36, "Ping")
    ∷ (0x37, "PingResponse")
    ∷ (0x38, "PlaceGhostRecipe")
    ∷ (0x39, "PlayerAbilities")
    ∷ (0x3A, "PlayerChatMessage")
    ∷ (0x3B, "EndCombat")
    ∷ (0x3C, "EnterCombat")
    ∷ (0x3D, "CombatDeath")
    ∷ (0x3E, "PlayerInfoRemove")
    ∷ (0x3F, "PlayerInfoUpdate")
    ∷ (0x40, "LookAt")
    ∷ (0x41, "SynchronizePlayerPosition")
    ∷ (0x42, "PlayerRotation")
    ∷ (0x43, "RecipeBookAdd")
    ∷ (0x44, "RecipeBookRemove")
    ∷ (0x45, "RecipeBookSettings")
    ∷ (0x46, "RemoveEntities")
    ∷ (0x47, "RemoveEntityEffect")
    ∷ (0x48, "ResetScore")
    ∷ (0x49, "RemoveResourcePack")
    ∷ (0x4A, "AddResourcePack")
    ∷ (0x4B, "Respawn")
    ∷ (0x4C, "SetHeadRotation")
    ∷ (0x4D, "UpdateSectionBlocks")
    ∷ (0x4E, "SelectAdvancementsTab")
    ∷ (0x4F, "ServerData")
    ∷ (0x50, "SetActionBarText")
    ∷ (0x51, "SetBorderCenter")
    ∷ (0x52, "SetBorderLerpSize")
    ∷ (0x53, "SetBorderSize")
    ∷ (0x54, "SetBorderWarningDelay")
    ∷ (0x55, "SetBorderWarningDistance")
    ∷ (0x56, "SetCamera")
    ∷ (0x57, "SetCenterChunk")
    ∷ (0x58, "SetRenderDistance")
    ∷ (0x59, "SetCursorItem")
    ∷ (0x5A, "SetDefaultSpawnPosition")
    ∷ (0x5B, "DisplayObjective")
    ∷ (0x5C, "SetEntityMetadata")
    ∷ (0x5D, "LinkEntities")
    ∷ (0x5E, "SetEntityVelocity")
    ∷ (0x5F, "SetEquipment")
    ∷ (0x60, "SetExperience")
    ∷ (0x61, "SetHealth")
    ∷ (0x62, "SetHeldItem")
    ∷ (0x63, "UpdateObjectives")
    ∷ (0x64, "SetPassengers")
    ∷ (0x65, "SetPlayerInventorySlot")
    ∷ (0x66, "UpdateTeams")
    ∷ (0x67, "UpdateScore")
    ∷ (0x68, "SetSimulationDistance")
    ∷ (0x69, "SetSubtitleText")
    ∷ (0x6A, "UpdateTime")
    ∷ (0x6B, "SetTitleText")
    ∷ (0x6C, "SetTitleAnimationTimes")
    ∷ (0x6D, "EntitySoundEffect")
    ∷ (0x6E, "SoundEffect")
    ∷ (0x6F, "StartConfiguration")
    ∷ (0x70, "StopSound")
    ∷ (0x71, "StoreCookie")
    ∷ (0x72, "SystemChatMessage")
    ∷ (0x73, "SetTabListHeaderAndFooter")
    ∷ (0x74, "TagQueryResponse")
    ∷ (0x75, "PickupItem")
    ∷ (0x76, "SynchronizeVehiclePosition")
    ∷ (0x77, "TestInstanceBlockStatus")
    ∷ (0x78, "SetTickingState")
    ∷ (0x79, "StepTick")
    ∷ (0x7A, "Transfer")
    ∷ (0x7B, "UpdateAdvancements")
    ∷ (0x7C, "UpdateAttributes")
    ∷ (0x7D, "EntityEffect")
    ∷ (0x7E, "UpdateRecipes")
    ∷ (0x7F, "UpdateTags")
    ∷ (0x80, "ProjectilePower")
    ∷ (0x81, "CustomReportDetails")
    ∷ (0x82, "ServerLinks")
    ∷ (0x83, "Waypoint")
    ∷ (0x84, "ClearDialog")
    ∷ (0x85, "ShowDialog")
    ∷ []

abbrev play_to_server : Table
play_to_server =
    (0x00, "ConfirmTeleportation")
    ∷ (0x01, "QueryBlockEntityTag")
    ∷ (0x02, "BundleItemSelected")
    ∷ (0x03, "ChangeDifficulty")
    ∷ (0x04, "ChangeGameMode")
    ∷ (0x05, "AcknowledgeMessage")
    ∷ (0x06, "ChatCommand")
    ∷ (0x07, "SignedChatCommand")
    ∷ (0x08, "ChatMessage")
    ∷ (0x09, "PlayerSession")
    ∷ (0x0A, "ChunkBatchReceived")
    ∷ (0x0B, "ClientStatus")
    ∷ (0x0C, "ClientTickEnd")
    ∷ (0x0D, "ClientInformation")
    ∷ (0x0E, "CommandSuggestionsRequest")
    ∷ (0x0F, "AcknowledgeConfiguration")
    ∷ (0x10, "ClickContainerButton")
    ∷ (0x11, "ClickContainer")
    ∷ (0x12, "CloseContainer")
    ∷ (0x13, "ChangeContainerSlotState")
    ∷ (0x14, "CookieResponse")
    ∷ (0x15, "PluginMessage")
    ∷ (0x16, "DebugSampleSubscription")
    ∷ (0x17, "EditBook")
    ∷ (0x18, "QueryEntityTag")
    ∷ (0x19, "Interact")
    ∷ (0x1A, "JigsawGenerate")
    ∷ (0x1B, "KeepAlive")
    ∷ (0x1C, "LockDifficulty")
    ∷ (0x1D, "SetPlayerPosition")
    ∷ (0x1E, "SetPlayerPositionandRotation")
    ∷ (0x1F, "SetPlayerRotation")
    ∷ (0x20, "SetPlayerMovementFlags")
    ∷ (0x21, "MoveVehicle")
    ∷ (0x22, "PaddleBoat")
    ∷ (0x23, "PickItemFromBlock")
    ∷ (0x24, "PickItemFromEntity")
    ∷ (0x25, "PingRequest")
    ∷ (0x26, "PlaceRecipe")
    ∷ (0x27, "PlayerAbilities")
    ∷ (0x28, "PlayerAction")
    ∷ (0x29, "PlayerCommand")
    ∷ (0x2A, "PlayerInput")
    ∷ (0x2B, "PlayerLoaded")
    ∷ (0x2C, "Pong")
    ∷ (0x2D, "ChangeRecipeBookSettings")
    ∷ (0x2E, "SetSeenRecipe")
    ∷ (0x2F, "RenameItem")
    ∷ (0x30, "ResourcePackResponse")
    ∷ (0x31, "SeenAdvancements")
    ∷ (0x32, "SelectTrade")
    ∷ (0x33, "SetBeaconEffect")
    ∷ (0x34, "SetHeldItem")
    ∷ (0x35, "ProgramCommandBlock")
    ∷ (0x36, "ProgramCommandBlockMinecart")
    ∷ (0x37, "SetCreativeModeSlot")
    ∷ (0x38, "ProgramJigsawBlock")
    ∷ (0x39, "ProgramStructureBlock")
    ∷ (0x3A, "SetTestBlock")
    ∷ (0x3B, "UpdateSign")
    ∷ (0x3C, "SwingArm")
    ∷ (0x3D, "TeleportToEntity")
    ∷ (0x3E, "TestInstanceBlockAction")
    ∷ (0x3F, "UseItemOn")
    ∷ (0x40, "UseItem")
    ∷ (0x41, "CustomClickAction")
    ∷ []

-- `v1_21_7`.
abbrev pub version_772 : Version
version_772 = record {
  version = 772;
  status_tables = record { to_client = status_to_client; to_server = status_to_server };
  login_tables = record { to_client = login_to_client; to_server = login_to_server };
  config_tables = some (record { to_client = config_to_client; to_server = config_to_server });
  play_tables = record { to_client = play_to_client; to_server = play_to_server };
}
