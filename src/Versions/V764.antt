-- ===== src/Versions/V764.antt =====
-- src/protocol/versions/v764.rs: the packets of protocol version 764.
use protocraft_framework.Prelude.{[], ◌∷◌, some}
use protocraft_framework.Versions.{Table, Version}

abbrev status_to_client : Table
status_to_client = (0x00, "StatusResponse") ∷ (0x01, "PingResponse") ∷ []

abbrev status_to_server : Table
status_to_server = (0x00, "StatusRequest") ∷ (0x01, "PingRequest") ∷ []

abbrev login_to_client : Table
login_to_client =
    (0x00, "Disconnect")
    ∷ (0x01, "EncryptionRequest")
    ∷ (0x02, "LoginSuccess")
    ∷ (0x03, "SetCompression")
    ∷ (0x04, "LoginPluginRequest")
    ∷ []

abbrev login_to_server : Table
login_to_server =
    (0x00, "LoginStart")
    ∷ (0x01, "EncryptionResponse")
    ∷ (0x02, "LoginPluginResponse")
    ∷ (0x03, "LoginAcknowledged")
    ∷ []

abbrev config_to_client : Table
config_to_client =
    (0x00, "PluginMessage")
    ∷ (0x01, "Disconnect")
    ∷ (0x02, "FinishConfiguration")
    ∷ (0x03, "KeepAlive")
    ∷ (0x04, "Ping")
    ∷ (0x05, "RegistryData")
    ∷ (0x06, "ResourcePack")
    ∷ (0x07, "FeatureFlags")
    ∷ (0x08, "UpdateTags")
    ∷ []

abbrev config_to_server : Table
config_to_server =
    (0x00, "ClientInformation")
    ∷ (0x01, "PluginMessage")
    ∷ (0x02, "FinishConfiguration")
    ∷ (0x03, "KeepAlive")
    ∷ (0x04, "Pong")
    ∷ (0x05, "ResourcePackResponse")
    ∷ []

abbrev play_to_client : Table
play_to_client =
    (0x00, "BundleDelimiter")
    ∷ (0x01, "SpawnEntity")
    ∷ (0x02, "SpawnExperienceOrb")
    ∷ (0x03, "EntityAnimation")
    ∷ (0x04, "AwardStatistics")
    ∷ (0x05, "AcknowledgeBlockChange")
    ∷ (0x06, "SetBlockDestroyStage")
    ∷ (0x07, "BlockEntityData")
    ∷ (0x08, "BlockAction")
    ∷ (0x09, "BlockUpdate")
    ∷ (0x0A, "BossBar")
    ∷ (0x0B, "ChangeDifficulty")
    ∷ (0x0C, "ChunkBatchFinished")
    ∷ (0x0D, "ChunkBatchStart")
    ∷ (0x0E, "ChunkBiomes")
    ∷ (0x0F, "ClearTitles")
    ∷ (0x10, "CommandSuggestionsResponse")
    ∷ (0x11, "Commands")
    ∷ (0x12, "CloseContainer")
    ∷ (0x13, "SetContainerContent")
    ∷ (0x14, "SetContainerProperty")
    ∷ (0x15, "SetContainerSlot")
    ∷ (0x16, "SetCooldown")
    ∷ (0x17, "ChatSuggestions")
    ∷ (0x18, "PluginMessage")
    ∷ (0x19, "DamageEvent")
    ∷ (0x1A, "DeleteMessage")
    ∷ (0x1B, "Disconnect")
    ∷ (0x1C, "DisguisedChatMessage")
    ∷ (0x1D, "EntityEvent")
    ∷ (0x1E, "Explosion")
    ∷ (0x1F, "UnloadChunk")
    ∷ (0x20, "GameEvent")
    ∷ (0x21, "OpenHorseScreen")
    ∷ (0x22, "HurtAnimation")
    ∷ (0x23, "InitializeWorldBorder")
    ∷ (0x24, "KeepAlive")
    ∷ (0x25, "ChunkDataandUpdateLight")
    ∷ (0x26, "WorldEvent")
    ∷ (0x27, "Particle")
    ∷ (0x28, "UpdateLight")
    ∷ (0x29, "Login")
    ∷ (0x2A, "MapData")
    ∷ (0x2B, "MerchantOffers")
    ∷ (0x2C, "UpdateEntityPosition")
    ∷ (0x2D, "UpdateEntityPositionandRotation")
    ∷ (0x2E, "UpdateEntityRotation")
    ∷ (0x2F, "MoveVehicle")
    ∷ (0x30, "OpenBook")
    ∷ (0x31, "OpenScreen")
    ∷ (0x32, "OpenSignEditor")
    ∷ (0x33, "Ping")
    ∷ (0x34, "PingResponse")
    ∷ (0x35, "PlaceGhostRecipe")
    ∷ (0x36, "PlayerAbilities")
    ∷ (0x37, "PlayerChatMessage")
    ∷ (0x38, "EndCombat")
    ∷ (0x39, "EnterCombat")
    ∷ (0x3A, "CombatDeath")
    ∷ (0x3B, "PlayerInfoRemove")
    ∷ (0x3C, "PlayerInfoUpdate")
    ∷ (0x3D, "LookAt")
    ∷ (0x3E, "SynchronizePlayerPosition")
    ∷ (0x3F, "UpdateRecipeBook")
    ∷ (0x40, "RemoveEntities")
    ∷ (0x41, "RemoveEntityEffect")
    ∷ (0x42, "ResourcePack")
    ∷ (0x43, "Respawn")
    ∷ (0x44, "SetHeadRotation")
    ∷ (0x45, "UpdateSectionBlocks")
    ∷ (0x46, "SelectAdvancementsTab")
    ∷ (0x47, "ServerData")
    ∷ (0x48, "SetActionBarText")
    ∷ (0x49, "SetBorderCenter")
    ∷ (0x4A, "SetBorderLerpSize")
    ∷ (0x4B, "SetBorderSize")
    ∷ (0x4C, "SetBorderWarningDelay")
    ∷ (0x4D, "SetBorderWarningDistance")
    ∷ (0x4E, "SetCamera")
    ∷ (0x4F, "SetHeldItem")
    ∷ (0x50, "SetCenterChunk")
    ∷ (0x51, "SetRenderDistance")
    ∷ (0x52, "SetDefaultSpawnPosition")
    ∷ (0x53, "DisplayObjective")
    ∷ (0x54, "SetEntityMetadata")
    ∷ (0x55, "LinkEntities")
    ∷ (0x56, "SetEntityVelocity")
    ∷ (0x57, "SetEquipment")
    ∷ (0x58, "SetExperience")
    ∷ (0x59, "SetHealth")
    ∷ (0x5A, "UpdateObjectives")
    ∷ (0x5B, "SetPassengers")
    ∷ (0x5C, "UpdateTeams")
    ∷ (0x5D, "UpdateScore")
    ∷ (0x5E, "SetSimulationDistance")
    ∷ (0x5F, "SetSubtitleText")
    ∷ (0x60, "UpdateTime")
    ∷ (0x61, "SetTitleText")
    ∷ (0x62, "SetTitleAnimationTimes")
    ∷ (0x63, "EntitySoundEffect")
    ∷ (0x64, "SoundEffect")
    ∷ (0x65, "StartConfiguration")
    ∷ (0x66, "StopSound")
    ∷ (0x67, "SystemChatMessage")
    ∷ (0x68, "SetTabListHeaderAndFooter")
    ∷ (0x69, "TagQueryResponse")
    ∷ (0x6A, "PickupItem")
    ∷ (0x6B, "TeleportEntity")
    ∷ (0x6C, "UpdateAdvancements")
    ∷ (0x6D, "UpdateAttributes")
    ∷ (0x6E, "EntityEffect")
    ∷ (0x6F, "UpdateRecipes")
    ∷ (0x70, "UpdateTags")
    ∷ []

abbrev play_to_server : Table
play_to_server =
    (0x00, "ConfirmTeleportation")
    ∷ (0x01, "QueryBlockEntityTag")
    ∷ (0x02, "ChangeDifficulty")
    ∷ (0x03, "AcknowledgeMessage")
    ∷ (0x04, "ChatCommand")
    ∷ (0x05, "ChatMessage")
    ∷ (0x06, "PlayerSession")
    ∷ (0x07, "ChunkBatchReceived")
    ∷ (0x08, "ClientStatus")
    ∷ (0x09, "ClientInformation")
    ∷ (0x0A, "CommandSuggestionsRequest")
    ∷ (0x0B, "AcknowledgeConfiguration")
    ∷ (0x0C, "ClickContainerButton")
    ∷ (0x0D, "ClickContainer")
    ∷ (0x0E, "CloseContainer")
    ∷ (0x0F, "PluginMessage")
    ∷ (0x10, "EditBook")
    ∷ (0x11, "QueryEntityTag")
    ∷ (0x12, "Interact")
    ∷ (0x13, "JigsawGenerate")
    ∷ (0x14, "KeepAlive")
    ∷ (0x15, "LockDifficulty")
    ∷ (0x16, "SetPlayerPosition")
    ∷ (0x17, "SetPlayerPositionandRotation")
    ∷ (0x18, "SetPlayerRotation")
    ∷ (0x19, "SetPlayerOnGround")
    ∷ (0x1A, "MoveVehicle")
    ∷ (0x1B, "PaddleBoat")
    ∷ (0x1C, "PickItem")
    ∷ (0x1D, "PingRequest")
    ∷ (0x1E, "PlaceRecipe")
    ∷ (0x1F, "PlayerAbilities")
    ∷ (0x20, "PlayerAction")
    ∷ (0x21, "PlayerCommand")
    ∷ (0x22, "PlayerInput")
    ∷ (0x23, "Pong")
    ∷ (0x24, "ChangeRecipeBookSettings")
    ∷ (0x25, "SetSeenRecipe")
    ∷ (0x26, "RenameItem")
    ∷ (0x27, "ResourcePackResponse")
    ∷ (0x28, "SeenAdvancements")
    ∷ (0x29, "SelectTrade")
    ∷ (0x2A, "SetBeaconEffect")
    ∷ (0x2B, "SetHeldItem")
    ∷ (0x2C, "ProgramCommandBlock")
    ∷ (0x2D, "ProgramCommandBlockMinecart")
    ∷ (0x2E, "SetCreativeModeSlot")
    ∷ (0x2F, "ProgramJigsawBlock")
    ∷ (0x30, "ProgramStructureBlock")
    ∷ (0x31, "UpdateSign")
    ∷ (0x32, "SwingArm")
    ∷ (0x33, "TeleportToEntity")
    ∷ (0x34, "UseItemOn")
    ∷ (0x35, "UseItem")
    ∷ []

-- `v1_20_2`.
abbrev pub version_764 : Version
version_764 = record {
  version = 764;
  status_tables = record { to_client = status_to_client; to_server = status_to_server };
  login_tables = record { to_client = login_to_client; to_server = login_to_server };
  config_tables = some (record { to_client = config_to_client; to_server = config_to_server });
  play_tables = record { to_client = play_to_client; to_server = play_to_server };
}
