-- ===== src/Versions/V763.antt =====
-- src/protocol/versions/v763.rs: the packets of protocol version 763.
use protocraft_framework.Prelude.{[], ◌∷◌, none}
use protocraft_framework.Versions.{Table, Version}

abbrev status_to_client : Table
status_to_client = (0x00, "StatusResponse") ∷ (0x01, "PingResponse") ∷ []

abbrev status_to_server : Table
status_to_server = (0x00, "StatusRequest") ∷ (0x01, "PingRequest") ∷ []

abbrev login_to_client : Table
login_to_client =
    (0x00, "Disconnect")
    ∷ (0x01, "EncryptionRequest")
    ∷ (0x02, "LoginSuccess")
    ∷ (0x03, "SetCompression")
    ∷ (0x04, "LoginPluginRequest")
    ∷ []

abbrev login_to_server : Table
login_to_server =
    (0x00, "LoginStart") ∷ (0x01, "EncryptionResponse") ∷ (0x02, "LoginPluginResponse") ∷ []

abbrev play_to_client : Table
play_to_client =
    (0x00, "BundleDelimiter")
    ∷ (0x01, "SpawnEntity")
    ∷ (0x02, "SpawnExperienceOrb")
    ∷ (0x03, "SpawnPlayer")
    ∷ (0x04, "EntityAnimation")
    ∷ (0x05, "AwardStatistics")
    ∷ (0x06, "AcknowledgeBlockChange")
    ∷ (0x07, "SetBlockDestroyStage")
    ∷ (0x08, "BlockEntityData")
    ∷ (0x09, "BlockAction")
    ∷ (0x0A, "BlockUpdate")
    ∷ (0x0B, "BossBar")
    ∷ (0x0C, "ChangeDifficulty")
    ∷ (0x0D, "ChunkBiomes")
    ∷ (0x0E, "ClearTitles")
    ∷ (0x0F, "CommandSuggestionsResponse")
    ∷ (0x10, "Commands")
    ∷ (0x11, "CloseContainer")
    ∷ (0x12, "SetContainerContent")
    ∷ (0x13, "SetContainerProperty")
    ∷ (0x14, "SetContainerSlot")
    ∷ (0x15, "SetCooldown")
    ∷ (0x16, "ChatSuggestions")
    ∷ (0x17, "PluginMessage")
    ∷ (0x18, "DamageEvent")
    ∷ (0x19, "DeleteMessage")
    ∷ (0x1A, "Disconnect")
    ∷ (0x1B, "DisguisedChatMessage")
    ∷ (0x1C, "EntityEvent")
    ∷ (0x1D, "Explosion")
    ∷ (0x1E, "UnloadChunk")
    ∷ (0x1F, "GameEvent")
    ∷ (0x20, "OpenHorseScreen")
    ∷ (0x21, "HurtAnimation")
    ∷ (0x22, "InitializeWorldBorder")
    ∷ (0x23, "KeepAlive")
    ∷ (0x24, "ChunkDataandUpdateLight")
    ∷ (0x25, "WorldEvent")
    ∷ (0x26, "Particle")
    ∷ (0x27, "UpdateLight")
    ∷ (0x28, "Login")
    ∷ (0x29, "MapData")
    ∷ (0x2A, "MerchantOffers")
    ∷ (0x2B, "UpdateEntityPosition")
    ∷ (0x2C, "UpdateEntityPositionandRotation")
    ∷ (0x2D, "UpdateEntityRotation")
    ∷ (0x2E, "MoveVehicle")
    ∷ (0x2F, "OpenBook")
    ∷ (0x30, "OpenScreen")
    ∷ (0x31, "OpenSignEditor")
    ∷ (0x32, "Ping")
    ∷ (0x33, "PlaceGhostRecipe")
    ∷ (0x34, "PlayerAbilities")
    ∷ (0x35, "PlayerChatMessage")
    ∷ (0x36, "EndCombat")
    ∷ (0x37, "EnterCombat")
    ∷ (0x38, "CombatDeath")
    ∷ (0x39, "PlayerInfoRemove")
    ∷ (0x3A, "PlayerInfoUpdate")
    ∷ (0x3B, "LookAt")
    ∷ (0x3C, "SynchronizePlayerPosition")
    ∷ (0x3D, "UpdateRecipeBook")
    ∷ (0x3E, "RemoveEntities")
    ∷ (0x3F, "RemoveEntityEffect")
    ∷ (0x40, "ResourcePack")
    ∷ (0x41, "Respawn")
    ∷ (0x42, "SetHeadRotation")
    ∷ (0x43, "UpdateSectionBlocks")
    ∷ (0x44, "SelectAdvancementsTab")
    ∷ (0x45, "ServerData")
    ∷ (0x46, "SetActionBarText")
    ∷ (0x47, "SetBorderCenter")
    ∷ (0x48, "SetBorderLerpSize")
    ∷ (0x49, "SetBorderSize")
    ∷ (0x4A, "SetBorderWarningDelay")
    ∷ (0x4B, "SetBorderWarningDistance")
    ∷ (0x4C, "SetCamera")
    ∷ (0x4D, "SetHeldItem")
    ∷ (0x4E, "SetCenterChunk")
    ∷ (0x4F, "SetRenderDistance")
    ∷ (0x50, "SetDefaultSpawnPosition")
    ∷ (0x51, "DisplayObjective")
    ∷ (0x52, "SetEntityMetadata")
    ∷ (0x53, "LinkEntities")
    ∷ (0x54, "SetEntityVelocity")
    ∷ (0x55, "SetEquipment")
    ∷ (0x56, "SetExperience")
    ∷ (0x57, "SetHealth")
    ∷ (0x58, "UpdateObjectives")
    ∷ (0x59, "SetPassengers")
    ∷ (0x5A, "UpdateTeams")
    ∷ (0x5B, "UpdateScore")
    ∷ (0x5C, "SetSimulationDistance")
    ∷ (0x5D, "SetSubtitleText")
    ∷ (0x5E, "UpdateTime")
    ∷ (0x5F, "SetTitleText")
    ∷ (0x60, "SetTitleAnimationTimes")
    ∷ (0x61, "EntitySoundEffect")
    ∷ (0x62, "SoundEffect")
    ∷ (0x63, "StopSound")
    ∷ (0x64, "SystemChatMessage")
    ∷ (0x65, "SetTabListHeaderAndFooter")
    ∷ (0x66, "TagQueryResponse")
    ∷ (0x67, "PickupItem")
    ∷ (0x68, "TeleportEntity")
    ∷ (0x69, "UpdateAdvancements")
    ∷ (0x6A, "UpdateAttributes")
    ∷ (0x6B, "FeatureFlags")
    ∷ (0x6C, "EntityEffect")
    ∷ (0x6D, "UpdateRecipes")
    ∷ (0x6E, "UpdateTags")
    ∷ []

abbrev play_to_server : Table
play_to_server =
    (0x00, "ConfirmTeleportation")
    ∷ (0x01, "QueryBlockEntityTag")
    ∷ (0x02, "ChangeDifficulty")
    ∷ (0x03, "MessageAcknowledgment")
    ∷ (0x04, "ChatCommand")
    ∷ (0x05, "ChatMessage")
    ∷ (0x06, "PlayerSession")
    ∷ (0x07, "ClientCommand")
    ∷ (0x08, "ClientInformation")
    ∷ (0x09, "CommandSuggestionsRequest")
    ∷ (0x0A, "ClickContainerButton")
    ∷ (0x0B, "ClickContainer")
    ∷ (0x0C, "CloseContainer")
    ∷ (0x0D, "PluginMessage")
    ∷ (0x0E, "EditBook")
    ∷ (0x0F, "QueryEntityTag")
    ∷ (0x10, "Interact")
    ∷ (0x11, "JigsawGenerate")
    ∷ (0x12, "KeepAlive")
    ∷ (0x13, "LockDifficulty")
    ∷ (0x14, "SetPlayerPosition")
    ∷ (0x15, "SetPlayerPositionandRotation")
    ∷ (0x16, "SetPlayerRotation")
    ∷ (0x17, "SetPlayerOnGround")
    ∷ (0x18, "MoveVehicle")
    ∷ (0x19, "PaddleBoat")
    ∷ (0x1A, "PickItem")
    ∷ (0x1B, "PlaceRecipe")
    ∷ (0x1C, "PlayerAbilities")
    ∷ (0x1D, "PlayerAction")
    ∷ (0x1E, "PlayerCommand")
    ∷ (0x1F, "PlayerInput")
    ∷ (0x20, "Pong")
    ∷ (0x21, "ChangeRecipeBookSettings")
    ∷ (0x22, "SetSeenRecipe")
    ∷ (0x23, "RenameItem")
    ∷ (0x24, "ResourcePack")
    ∷ (0x25, "SeenAdvancements")
    ∷ (0x26, "SelectTrade")
    ∷ (0x27, "SetBeaconEffect")
    ∷ (0x28, "SetHeldItem")
    ∷ (0x29, "ProgramCommandBlock")
    ∷ (0x2A, "ProgramCommandBlockMinecart")
    ∷ (0x2B, "SetCreativeModeSlot")
    ∷ (0x2C, "ProgramJigsawBlock")
    ∷ (0x2D, "ProgramStructureBlock")
    ∷ (0x2E, "UpdateSign")
    ∷ (0x2F, "SwingArm")
    ∷ (0x30, "TeleportToEntity")
    ∷ (0x31, "UseItemOn")
    ∷ (0x32, "UseItem")
    ∷ []

-- `v1_20_0`.
abbrev pub version_763 : Version
version_763 = record {
  version = 763;
  status_tables = record { to_client = status_to_client; to_server = status_to_server };
  login_tables = record { to_client = login_to_client; to_server = login_to_server };
  config_tables = none;
  play_tables = record { to_client = play_to_client; to_server = play_to_server };
}
