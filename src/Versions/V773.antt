-- ===== src/Versions/V773.antt =====
-- src/protocol/versions/v773.rs: the packets of protocol version 773.
use protocraft_framework.Prelude.{[], ◌∷◌, some}
use protocraft_framework.Versions.{Table, Version}

abbrev status_to_client : Table
status_to_client = (0, "StatusResponse") ∷ (1, "Pong") ∷ []

abbrev status_to_server : Table
status_to_server = (0, "StatusRequest") ∷ (1, "Ping") ∷ []

abbrev login_to_client : Table
login_to_client =
    (0, "Disconnect")
    ∷ (1, "EncryptionRequest")
    ∷ (2, "LoginSuccess")
    ∷ (3, "SetCompression")
    ∷ (4, "PluginRequest")
    ∷ (5, "CookieRequest")
    ∷ []

abbrev login_to_server : Table
login_to_server =
    (0, "LoginStart")
    ∷ (1, "EncryptionResponse")
    ∷ (2, "PluginResponse")
    ∷ (3, "LoginAcknowledge")
    ∷ (4, "CookieResponse")
    ∷ []

abbrev config_to_client : Table
config_to_client =
    (0x00, "CookieRequest")
    ∷ (0x01, "Plugin")
    ∷ (0x02, "Disconnect")
    ∷ (0x03, "Finish")
    ∷ (0x04, "KeepAlive")
    ∷ (0x05, "Ping")
    ∷ (0x06, "ResetChat")
    ∷ (0x07, "RegistryData")
    ∷ (0x08, "RemoveResourcePack")
    ∷ (0x09, "AddResourcePack")
    ∷ (0x0A, "StoreCookie")
    ∷ (0x0B, "Transfer")
    ∷ (0x0C, "FeatureFlags")
    ∷ (0x0D, "UpdateTags")
    ∷ (0x0E, "KnownPacks")
    ∷ (0x0F, "CustomReport")
    ∷ (0x10, "ServerLinks")
    ∷ (0x11, "ClearDialog")
    ∷ (0x12, "ShowDialog")
    ∷ (0x13, "CodeOfConduct")
    ∷ []

abbrev config_to_server : Table
config_to_server =
    (0, "ClientInformation")
    ∷ (1, "CookieResponse")
    ∷ (2, "Plugin")
    ∷ (3, "FinishAcknowledge")
    ∷ (4, "KeepAlive")
    ∷ (5, "Pong")
    ∷ (6, "ResourcePackResponse")
    ∷ (7, "KnownPacks")
    ∷ (8, "CustomClick")
    ∷ []

abbrev play_to_client : Table
play_to_client =
    (0x00, "BundleDelimiter")
    ∷ (0x01, "SpawnEntity")
    ∷ (0x02, "EntityAnimation")
    ∷ (0x03, "AwardStatistics")
    ∷ (0x04, "AcknowledgeBlockChange")
    ∷ (0x05, "SetBlockDestroyStage")
    ∷ (0x06, "BlockEntityData")
    ∷ (0x07, "BlockAction")
    ∷ (0x08, "BlockUpdate")
    ∷ (0x09, "BossBar")
    ∷ (0x0A, "ChangeDifficulty")
    ∷ (0x0B, "ChunkBatchFinished")
    ∷ (0x0C, "ChunkBatchStart")
    ∷ (0x0D, "ChunkBiomes")
    ∷ (0x0E, "ClearTitles")
    ∷ (0x0F, "CommandSuggestionsResponse")
    ∷ (0x10, "Commands")
    ∷ (0x11, "CloseContainer")
    ∷ (0x12, "SetContainerContent")
    ∷ (0x13, "SetContainerProperty")
    ∷ (0x14, "SetContainerSlot")
    ∷ (0x15, "CookieRequest")
    ∷ (0x16, "SetCooldown")
    ∷ (0x17, "ChatSuggestions")
    ∷ (0x18, "PluginMessage")
    ∷ (0x19, "DamageEvent")
    ∷ (0x1A, "DebugBlockValue")
    ∷ (0x1B, "DebugChunkValue")
    ∷ (0x1C, "DebugEntityValue")
    ∷ (0x1D, "DebugEvent")
    ∷ (0x1E, "DebugSample")
    ∷ (0x1F, "DeleteMessage")
    ∷ (0x20, "Disconnect")
    ∷ (0x21, "DisguisedChatMessage")
    ∷ (0x22, "EntityEvent")
    ∷ (0x23, "TeleportEntity")
    ∷ (0x24, "Explosion")
    ∷ (0x25, "UnloadChunk")
    ∷ (0x26, "GameEvent")
    ∷ (0x27, "GameTestHighlightPosition")
    ∷ (0x28, "OpenHorseScreen")
    ∷ (0x29, "HurtAnimation")
    ∷ (0x2A, "InitializeWorldBorder")
    ∷ (0x2B, "KeepAlive")
    ∷ (0x2C, "ChunkDataandUpdateLight")
    ∷ (0x2D, "WorldEvent")
    ∷ (0x2E, "Particle")
    ∷ (0x2F, "UpdateLight")
    ∷ (0x30, "Login")
    ∷ (0x31, "MapData")
    ∷ (0x32, "MerchantOffers")
    ∷ (0x33, "UpdateEntityPosition")
    ∷ (0x34, "UpdateEntityPositionandRotation")
    ∷ (0x35, "MoveMinecartAlongTrack")
    ∷ (0x36, "UpdateEntityRotation")
    ∷ (0x37, "MoveVehicle")
    ∷ (0x38, "OpenBook")
    ∷ (0x39, "OpenScreen")
    ∷ (0x3A, "OpenSignEditor")
    ∷ (0x3B, "Ping")
    ∷ (0x3C, "PingResponse")
    ∷ (0x3D, "PlaceGhostRecipe")
    ∷ (0x3E, "PlayerAbilities")
    ∷ (0x3F, "PlayerChatMessage")
    ∷ (0x40, "EndCombat")
    ∷ (0x41, "EnterCombat")
    ∷ (0x42, "CombatDeath")
    ∷ (0x43, "PlayerInfoRemove")
    ∷ (0x44, "PlayerInfoUpdate")
    ∷ (0x45, "LookAt")
    ∷ (0x46, "SynchronizePlayerPosition")
    ∷ (0x47, "PlayerRotation")
    ∷ (0x48, "RecipeBookAdd")
    ∷ (0x49, "RecipeBookRemove")
    ∷ (0x4A, "RecipeBookSettings")
    ∷ (0x4B, "RemoveEntities")
    ∷ (0x4C, "RemoveEntityEffect")
    ∷ (0x4D, "ResetScore")
    ∷ (0x4E, "RemoveResourcePack")
    ∷ (0x4F, "AddResourcePack")
    ∷ (0x50, "Respawn")
    ∷ (0x51, "SetHeadRotation")
    ∷ (0x52, "UpdateSectionBlocks")
    ∷ (0x53, "SelectAdvancementsTab")
    ∷ (0x54, "ServerData")
    ∷ (0x55, "SetActionBarText")
    ∷ (0x56, "SetBorderCenter")
    ∷ (0x57, "SetBorderLerpSize")
    ∷ (0x58, "SetBorderSize")
    ∷ (0x59, "SetBorderWarningDelay")
    ∷ (0x5A, "SetBorderWarningDistance")
    ∷ (0x5B, "SetCamera")
    ∷ (0x5C, "SetCenterChunk")
    ∷ (0x5D, "SetRenderDistance")
    ∷ (0x5E, "SetCursorItem")
    ∷ (0x5F, "SetDefaultSpawnPosition")
    ∷ (0x60, "DisplayObjective")
    ∷ (0x61, "SetEntityMetadata")
    ∷ (0x62, "LinkEntities")
    ∷ (0x63, "SetEntityVelocity")
    ∷ (0x64, "SetEquipment")
    ∷ (0x65, "SetExperience")
    ∷ (0x66, "SetHealth")
    ∷ (0x67, "SetHeldItem")
    ∷ (0x68, "UpdateObjectives")
    ∷ (0x69, "SetPassengers")
    ∷ (0x6A, "SetPlayerInventorySlot")
    ∷ (0x6B, "UpdateTeams")
    ∷ (0x6C, "UpdateScore")
    ∷ (0x6D, "SetSimulationDistance")
    ∷ (0x6E, "SetSubtitleText")
    ∷ (0x6F, "UpdateTime")
    ∷ (0x70, "SetTitleText")
    ∷ (0x71, "SetTitleAnimationTimes")
    ∷ (0x72, "EntitySoundEffect")
    ∷ (0x73, "SoundEffect")
    ∷ (0x74, "StartConfiguration")
    ∷ (0x75, "StopSound")
    ∷ (0x76, "StoreCookie")
    ∷ (0x77, "SystemChatMessage")
    ∷ (0x78, "SetTabListHeaderAndFooter")
    ∷ (0x79, "TagQueryResponse")
    ∷ (0x7A, "PickupItem")
    ∷ (0x7B, "SynchronizeVehiclePosition")
    ∷ (0x7C, "TestInstanceBlockStatus")
    ∷ (0x7D, "SetTickingState")
    ∷ (0x7E, "StepTick")
    ∷ (0x7F, "Transfer")
    ∷ (0x80, "UpdateAdvancements")
    ∷ (0x81, "UpdateAttributes")
    ∷ (0x82, "EntityEffect")
    ∷ (0x83, "UpdateRecipes")
    ∷ (0x84, "UpdateTags")
    ∷ (0x85, "ProjectilePower")
    ∷ (0x86, "CustomReportDetails")
    ∷ (0x87, "ServerLinks")
    ∷ (0x88, "Waypoint")
    ∷ (0x89, "ClearDialog")
    ∷ (0x8A, "ShowDialog")
    ∷ []

abbrev play_to_server : Table
play_to_server =
    (0x00, "ConfirmTeleportation")
    ∷ (0x01, "QueryBlockEntityTag")
    ∷ (0x02, "BundleItemSelected")
    ∷ (0x03, "ChangeDifficulty2")
    ∷ (0x04, "ChangeGameMode")
    ∷ (0x05, "AcknowledgeMessage")
    ∷ (0x06, "ChatCommand")
    ∷ (0x07, "SignedChatCommand")
    ∷ (0x08, "ChatMessage")
    ∷ (0x09, "PlayerSession")
    ∷ (0x0A, "ChunkBatchReceived")
    ∷ (0x0B, "ClientStatus")
    ∷ (0x0C, "ClientTickEnd")
    ∷ (0x0D, "ClientInformation")
    ∷ (0x0E, "CommandSuggestionsRequest")
    ∷ (0x0F, "AcknowledgeConfiguration")
    ∷ (0x10, "ClickContainerButton")
    ∷ (0x11, "ClickContainer")
    ∷ (0x12, "CloseContainer2")
    ∷ (0x13, "ChangeContainerSlotState")
    ∷ (0x14, "CookieResponse")
    ∷ (0x15, "PluginMessage")
    ∷ (0x16, "DebugSubscriptionRequest")
    ∷ (0x17, "EditBook")
    ∷ (0x18, "QueryEntityTag")
    ∷ (0x19, "Interact")
    ∷ (0x1A, "JigsawGenerate")
    ∷ (0x1B, "KeepAlive")
    ∷ (0x1C, "LockDifficulty")
    ∷ (0x1D, "SetPlayerPosition")
    ∷ (0x1E, "SetPlayerPositionandRotation")
    ∷ (0x1F, "SetPlayerRotation")
    ∷ (0x20, "SetPlayerMovementFlags")
    ∷ (0x21, "MoveVehicle")
    ∷ (0x22, "PaddleBoat")
    ∷ (0x23, "PickItemFromBlock")
    ∷ (0x24, "PickItemFromEntity")
    ∷ (0x25, "PingRequest")
    ∷ (0x26, "PlaceRecipe")
    ∷ (0x27, "PlayerAbilities")
    ∷ (0x28, "PlayerAction")
    ∷ (0x29, "PlayerCommand")
    ∷ (0x2A, "PlayerInput")
    ∷ (0x2B, "PlayerLoaded")
    ∷ (0x2C, "Pong")
    ∷ (0x2D, "ChangeRecipeBookSettings")
    ∷ (0x2E, "SetSeenRecipe")
    ∷ (0x2F, "RenameItem")
    ∷ (0x30, "ResourcePackResponse")
    ∷ (0x31, "SeenAdvancements")
    ∷ (0x32, "SelectTrade")
    ∷ (0x33, "SetBeaconEffect")
    ∷ (0x34, "SetHeldItem")
    ∷ (0x35, "ProgramCommandBlock")
    ∷ (0x36, "ProgramCommandBlockMinecart")
    ∷ (0x37, "SetCreativeModeSlot")
    ∷ (0x38, "ProgramJigsawBlock")
    ∷ (0x39, "ProgramStructureBlock")
    ∷ (0x3A, "SetTestBlock")
    ∷ (0x3B, "UpdateSign")
    ∷ (0x3C, "SwingArm")
    ∷ (0x3D, "TeleportToEntity")
    ∷ (0x3E, "TestInstanceBlockAction")
    ∷ (0x3F, "UseItemOn")
    ∷ (0x40, "UseItem")
    ∷ (0x41, "CustomClickAction")
    ∷ []

-- `v1_21_9`.
abbrev pub version_773 : Version
version_773 = record {
  version = 773;
  status_tables = record { to_client = status_to_client; to_server = status_to_server };
  login_tables = record { to_client = login_to_client; to_server = login_to_server };
  config_tables = some (record { to_client = config_to_client; to_server = config_to_server });
  play_tables = record { to_client = play_to_client; to_server = play_to_server };
}
