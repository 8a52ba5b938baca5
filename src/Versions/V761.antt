-- ===== src/Versions/V761.antt =====
-- src/protocol/versions/v761.rs: the packets of protocol version 761.
use protocraft_framework.Prelude.{[], ◌∷◌, none}
use protocraft_framework.Versions.{Table, Version}

abbrev status_to_client : Table
status_to_client = (0x00, "StatusResponse") ∷ (0x01, "PingResponse") ∷ []

abbrev status_to_server : Table
status_to_server = (0x00, "StatusRequest") ∷ (0x01, "PingRequest") ∷ []

abbrev login_to_client : Table
login_to_client =
    (0x00, "Disconnect")
    ∷ (0x01, "EncryptionRequest")
    ∷ (0x02, "LoginSuccess")
    ∷ (0x03, "SetCompression")
    ∷ (0x04, "LoginPluginRequest")
    ∷ []

abbrev login_to_server : Table
login_to_server =
    (0x00, "LoginStart") ∷ (0x01, "EncryptionResponse") ∷ (0x02, "LoginPluginResponse") ∷ []

abbrev play_to_client : Table
play_to_client =
    (0x00, "SpawnEntity")
    ∷ (0x01, "SpawnExperienceOrb")
    ∷ (0x02, "SpawnPlayer")
    ∷ (0x03, "EntityAnimation")
    ∷ (0x04, "AwardStatistics")
    ∷ (0x05, "AcknowledgeBlockChange")
    ∷ (0x06, "SetBlockDestroyStage")
    ∷ (0x07, "BlockEntityData")
    ∷ (0x08, "BlockAction")
    ∷ (0x09, "BlockUpdate")
    ∷ (0x0A, "BossBar")
    ∷ (0x0B, "ChangeDifficulty")
    ∷ (0x0C, "ClearTitles")
    ∷ (0x0D, "CommandSuggestionsResponse")
    ∷ (0x0E, "Commands")
    ∷ (0x0F, "CloseContainer")
    ∷ (0x10, "SetContainerContent")
    ∷ (0x11, "SetContainerProperty")
    ∷ (0x12, "SetContainerSlot")
    ∷ (0x13, "SetCooldown")
    ∷ (0x14, "ChatSuggestions")
    ∷ (0x15, "PluginMessage")
    ∷ (0x16, "DeleteMessage")
    ∷ (0x17, "Disconnect")
    ∷ (0x18, "DisguisedChatMessage")
    ∷ (0x19, "EntityEvent")
    ∷ (0x1A, "Explosion")
    ∷ (0x1B, "UnloadChunk")
    ∷ (0x1C, "GameEvent")
    ∷ (0x1D, "OpenHorseScreen")
    ∷ (0x1E, "InitializeWorldBorder")
    ∷ (0x1F, "KeepAlive")
    ∷ (0x20, "ChunkDataandUpdateLight")
    ∷ (0x21, "WorldEvent")
    ∷ (0x22, "Particle")
    ∷ (0x23, "UpdateLight")
    ∷ (0x24, "Login")
    ∷ (0x25, "MapData")
    ∷ (0x26, "MerchantOffers")
    ∷ (0x27, "UpdateEntityPosition")
    ∷ (0x28, "UpdateEntityPositionandRotation")
    ∷ (0x29, "UpdateEntityRotation")
    ∷ (0x2A, "MoveVehicle")
    ∷ (0x2B, "OpenBook")
    ∷ (0x2C, "OpenScreen")
    ∷ (0x2D, "OpenSignEditor")
    ∷ (0x2E, "Ping")
    ∷ (0x2F, "PlaceGhostRecipe")
    ∷ (0x30, "PlayerAbilities")
    ∷ (0x31, "PlayerChatMessage")
    ∷ (0x32, "EndCombat")
    ∷ (0x33, "EnterCombat")
    ∷ (0x34, "CombatDeath")
    ∷ (0x35, "PlayerInfoRemove")
    ∷ (0x36, "PlayerInfoUpdate")
    ∷ (0x37, "LookAt")
    ∷ (0x38, "SynchronizePlayerPosition")
    ∷ (0x39, "UpdateRecipeBook")
    ∷ (0x3A, "RemoveEntities")
    ∷ (0x3B, "RemoveEntityEffect")
    ∷ (0x3C, "ResourcePack")
    ∷ (0x3D, "Respawn")
    ∷ (0x3E, "SetHeadRotation")
    ∷ (0x3F, "UpdateSectionBlocks")
    ∷ (0x40, "SelectAdvancementsTab")
    ∷ (0x41, "ServerData")
    ∷ (0x42, "SetActionBarText")
    ∷ (0x43, "SetBorderCenter")
    ∷ (0x44, "SetBorderLerpSize")
    ∷ (0x45, "SetBorderSize")
    ∷ (0x46, "SetBorderWarningDelay")
    ∷ (0x47, "SetBorderWarningDistance")
    ∷ (0x48, "SetCamera")
    ∷ (0x49, "SetHeldItem")
    ∷ (0x4A, "SetCenterChunk")
    ∷ (0x4B, "SetRenderDistance")
    ∷ (0x4C, "SetDefaultSpawnPosition")
    ∷ (0x4D, "DisplayObjective")
    ∷ (0x4E, "SetEntityMetadata")
    ∷ (0x4F, "LinkEntities")
    ∷ (0x50, "SetEntityVelocity")
    ∷ (0x51, "SetEquipment")
    ∷ (0x52, "SetExperience")
    ∷ (0x53, "SetHealth")
    ∷ (0x54, "UpdateObjectives")
    ∷ (0x55, "SetPassengers")
    ∷ (0x56, "UpdateTeams")
    ∷ (0x57, "UpdateScore")
    ∷ (0x58, "SetSimulationDistance")
    ∷ (0x59, "SetSubtitleText")
    ∷ (0x5A, "UpdateTime")
    ∷ (0x5B, "SetTitleText")
    ∷ (0x5C, "SetTitleAnimationTimes")
    ∷ (0x5D, "EntitySoundEffect")
    ∷ (0x5E, "SoundEffect")
    ∷ (0x5F, "StopSound")
    ∷ (0x60, "SystemChatMessage")
    ∷ (0x61, "SetTabListHeaderAndFooter")
    ∷ (0x62, "TagQueryResponse")
    ∷ (0x63, "PickupItem")
    ∷ (0x64, "TeleportEntity")
    ∷ (0x65, "UpdateAdvancements")
    ∷ (0x66, "UpdateAttributes")
    ∷ (0x67, "FeatureFlags")
    ∷ (0x68, "EntityEffect")
    ∷ (0x69, "UpdateRecipes")
    ∷ (0x6A, "UpdateTags")
    ∷ []

abbrev play_to_server : Table
play_to_server =
    (0x00, "ConfirmTeleportation")
    ∷ (0x01, "QueryBlockEntityTag")
    ∷ (0x02, "ChangeDifficulty")
    ∷ (0x03, "MessageAcknowledgment")
    ∷ (0x04, "ChatCommand")
    ∷ (0x05, "ChatMessage")
    ∷ (0x06, "ClientCommand")
    ∷ (0x07, "ClientInformation")
    ∷ (0x08, "CommandSuggestionsRequest")
    ∷ (0x09, "ClickContainerButton")
    ∷ (0x0A, "ClickContainer")
    ∷ (0x0B, "CloseContainer")
    ∷ (0x0C, "PluginMessage")
    ∷ (0x0D, "EditBook")
    ∷ (0x0E, "QueryEntityTag")
    ∷ (0x0F, "Interact")
    ∷ (0x10, "JigsawGenerate")
    ∷ (0x11, "KeepAlive")
    ∷ (0x12, "LockDifficulty")
    ∷ (0x13, "SetPlayerPosition")
    ∷ (0x14, "SetPlayerPositionandRotation")
    ∷ (0x15, "SetPlayerRotation")
    ∷ (0x16, "SetPlayerOnGround")
    ∷ (0x17, "MoveVehicle")
    ∷ (0x18, "PaddleBoat")
    ∷ (0x19, "PickItem")
    ∷ (0x1A, "PlaceRecipe")
    ∷ (0x1B, "PlayerAbilities")
    ∷ (0x1C, "PlayerAction")
    ∷ (0x1D, "PlayerCommand")
    ∷ (0x1E, "PlayerInput")
    ∷ (0x1F, "Pong")
    ∷ (0x20, "PlayerSession")
    ∷ (0x21, "ChangeRecipeBookSettings")
    ∷ (0x22, "SetSeenRecipe")
    ∷ (0x23, "RenameItem")
    ∷ (0x24, "ResourcePack")
    ∷ (0x25, "SeenAdvancements")
    ∷ (0x26, "SelectTrade")
    ∷ (0x27, "SetBeaconEffect")
    ∷ (0x28, "SetHeldItem")
    ∷ (0x29, "ProgramCommandBlock")
    ∷ (0x2A, "ProgramCommandBlockMinecart")
    ∷ (0x2B, "SetCreativeModeSlot")
    ∷ (0x2C, "ProgramJigsawBlock")
    ∷ (0x2D, "ProgramStructureBlock")
    ∷ (0x2E, "UpdateSign")
    ∷ (0x2F, "SwingArm")
    ∷ (0x30, "TeleportToEntity")
    ∷ (0x31, "UseItemOn")
    ∷ (0x32, "UseItem")
    ∷ []

-- `v1_19_3`.
abbrev pub version_761 : Version
version_761 = record {
  version = 761;
  status_tables = record { to_client = status_to_client; to_server = status_to_server };
  login_tables = record { to_client = login_to_client; to_server = login_to_server };
  config_tables = none;
  play_tables = record { to_client = play_to_client; to_server = play_to_server };
}
