-- ===== src/Versions/V760.antt =====
-- src/protocol/versions/v760.rs: the packets of protocol version 760.
use protocraft_framework.Prelude.{[], ◌∷◌, none}
use protocraft_framework.Versions.{Table, Version}

abbrev status_to_client : Table
status_to_client = (0x00, "StatusResponse") ∷ (0x01, "PingResponse") ∷ []

abbrev status_to_server : Table
status_to_server = (0x00, "StatusRequest") ∷ (0x01, "PingRequest") ∷ []

abbrev login_to_client : Table
login_to_client =
    (0x00, "Disconnect")
    ∷ (0x01, "EncryptionRequest")
    ∷ (0x02, "LoginSuccess")
    ∷ (0x03, "SetCompression")
    ∷ (0x04, "LoginPluginRequest")
    ∷ []

abbrev login_to_server : Table
login_to_server =
    (0x00, "LoginStart") ∷ (0x01, "EncryptionResponse") ∷ (0x02, "LoginPluginResponse") ∷ []

abbrev play_to_client : Table
play_to_client =
    (0x00, "SpawnEntity")
    ∷ (0x01, "SpawnExperienceOrb")
    ∷ (0x02, "SpawnPlayer")
    ∷ (0x03, "EntityAnimation")
    ∷ (0x04, "AwardStatistics")
    ∷ (0x05, "AcknowledgeBlockChange")
    ∷ (0x06, "SetBlockDestroyStage")
    ∷ (0x07, "BlockEntityData")
    ∷ (0x08, "BlockAction")
    ∷ (0x09, "BlockUpdate")
    ∷ (0x0A, "BossBar")
    ∷ (0x0B, "ChangeDifficulty")
    ∷ (0x0C, "ChatPreview")
    ∷ (0x0D, "ClearTitles")
    ∷ (0x0E, "CommandSuggestionsResponse")
    ∷ (0x0F, "Commands")
    ∷ (0x10, "CloseContainer")
    ∷ (0x11, "SetContainerContent")
    ∷ (0x12, "SetContainerProperty")
    ∷ (0x13, "SetContainerSlot")
    ∷ (0x14, "SetCooldown")
    ∷ (0x15, "ChatSuggestions")
    ∷ (0x16, "PluginMessage")
    ∷ (0x17, "CustomSoundEffect")
    ∷ (0x18, "HideMessage")
    ∷ (0x19, "Disconnect")
    ∷ (0x1A, "EntityEvent")
    ∷ (0x1B, "Explosion")
    ∷ (0x1C, "UnloadChunk")
    ∷ (0x1D, "GameEvent")
    ∷ (0x1E, "OpenHorseScreen")
    ∷ (0x1F, "InitializeWorldBorder")
    ∷ (0x20, "KeepAlive")
    ∷ (0x21, "ChunkDataandUpdateLight")
    ∷ (0x22, "WorldEvent")
    ∷ (0x23, "Particle")
    ∷ (0x24, "UpdateLight")
    ∷ (0x25, "Login")
    ∷ (0x26, "MapData")
    ∷ (0x27, "MerchantOffers")
    ∷ (0x28, "UpdateEntityPosition")
    ∷ (0x29, "UpdateEntityPositionandRotation")
    ∷ (0x2A, "UpdateEntityRotation")
    ∷ (0x2B, "MoveVehicle")
    ∷ (0x2C, "OpenBook")
    ∷ (0x2D, "OpenScreen")
    ∷ (0x2E, "OpenSignEditor")
    ∷ (0x2F, "Ping")
    ∷ (0x30, "PlaceGhostRecipe")
    ∷ (0x31, "PlayerAbilities")
    ∷ (0x32, "MessageHeader")
    ∷ (0x33, "PlayerChatMessage")
    ∷ (0x34, "EndCombat")
    ∷ (0x35, "EnterCombat")
    ∷ (0x36, "CombatDeath")
    ∷ (0x37, "PlayerInfo")
    ∷ (0x38, "LookAt")
    ∷ (0x39, "SynchronizePlayerPosition")
    ∷ (0x3A, "UpdateRecipeBook")
    ∷ (0x3B, "RemoveEntities")
    ∷ (0x3C, "RemoveEntityEffect")
    ∷ (0x3D, "ResourcePack")
    ∷ (0x3E, "Respawn")
    ∷ (0x3F, "SetHeadRotation")
    ∷ (0x40, "UpdateSectionBlocks")
    ∷ (0x41, "SelectAdvancementsTab")
    ∷ (0x42, "ServerData")
    ∷ (0x43, "SetActionBarText")
    ∷ (0x44, "SetBorderCenter")
    ∷ (0x45, "SetBorderLerpSize")
    ∷ (0x46, "SetBorderSize")
    ∷ (0x47, "SetBorderWarningDelay")
    ∷ (0x48, "SetBorderWarningDistance")
    ∷ (0x49, "SetCamera")
    ∷ (0x4A, "SetHeldItem")
    ∷ (0x4B, "SetCenterChunk")
    ∷ (0x4C, "SetRenderDistance")
    ∷ (0x4D, "SetDefaultSpawnPosition")
    ∷ (0x4E, "SetDisplayChatPreview")
    ∷ (0x4F, "DisplayObjective")
    ∷ (0x50, "SetEntityMetadata")
    ∷ (0x51, "LinkEntities")
    ∷ (0x52, "SetEntityVelocity")
    ∷ (0x53, "SetEquipment")
    ∷ (0x54, "SetExperience")
    ∷ (0x55, "SetHealth")
    ∷ (0x56, "UpdateObjectives")
    ∷ (0x57, "SetPassengers")
    ∷ (0x58, "UpdateTeams")
    ∷ (0x59, "UpdateScore")
    ∷ (0x5A, "SetSimulationDistance")
    ∷ (0x5B, "SetSubtitleText")
    ∷ (0x5C, "UpdateTime")
    ∷ (0x5D, "SetTitleText")
    ∷ (0x5E, "SetTitleAnimationTimes")
    ∷ (0x5F, "EntitySoundEffect")
    ∷ (0x60, "SoundEffect")
    ∷ (0x61, "StopSound")
    ∷ (0x62, "SystemChatMessage")
    ∷ (0x63, "SetTabListHeaderAndFooter")
    ∷ (0x64, "TagQueryResponse")
    ∷ (0x65, "PickupItem")
    ∷ (0x66, "TeleportEntity")
    ∷ (0x67, "UpdateAdvancements")
    ∷ (0x68, "UpdateAttributes")
    ∷ (0x69, "EntityEffect")
    ∷ (0x6A, "UpdateRecipes")
    ∷ (0x6B, "UpdateTags")
    ∷ []

abbrev play_to_server : Table
play_to_server =
    (0x00, "ConfirmTeleportation")
    ∷ (0x01, "QueryBlockEntityTag")
    ∷ (0x02, "ChangeDifficulty")
    ∷ (0x03, "MessageAcknowledgment")
    ∷ (0x04, "ChatCommand")
    ∷ (0x05, "ChatMessage")
    ∷ (0x06, "ChatPreview")
    ∷ (0x07, "ClientCommand")
    ∷ (0x08, "ClientInformation")
    ∷ (0x09, "CommandSuggestionsRequest")
    ∷ (0x0A, "ClickContainerButton")
    ∷ (0x0B, "ClickContainer")
    ∷ (0x0C, "CloseContainer")
    ∷ (0x0D, "PluginMessage")
    ∷ (0x0E, "EditBook")
    ∷ (0x0F, "QueryEntityTag")
    ∷ (0x10, "Interact")
    ∷ (0x11, "JigsawGenerate")
    ∷ (0x12, "KeepAlive")
    ∷ (0x13, "LockDifficulty")
    ∷ (0x14, "SetPlayerPosition")
    ∷ (0x15, "SetPlayerPositionandRotation")
    ∷ (0x16, "SetPlayerRotation")
    ∷ (0x17, "SetPlayerOnGround")
    ∷ (0x18, "MoveVehicle")
    ∷ (0x19, "PaddleBoat")
    ∷ (0x1A, "PickItem")
    ∷ (0x1B, "PlaceRecipe")
    ∷ (0x1C, "PlayerAbilities")
    ∷ (0x1D, "PlayerAction")
    ∷ (0x1E, "PlayerCommand")
    ∷ (0x1F, "PlayerInput")
    ∷ (0x20, "Pong")
    ∷ (0x21, "ChangeRecipeBookSettings")
    ∷ (0x22, "SetSeenRecipe")
    ∷ (0x23, "RenameItem")
    ∷ (0x24, "ResourcePack")
    ∷ (0x25, "SeenAdvancements")
    ∷ (0x26, "SelectTrade")
    ∷ (0x27, "SetBeaconEffect")
    ∷ (0x28, "SetHeldItem")
    ∷ (0x29, "ProgramCommandBlock")
    ∷ (0x2A, "ProgramCommandBlockMinecart")
    ∷ (0x2B, "SetCreativeModeSlot")
    ∷ (0x2C, "ProgramJigsawBlock")
    ∷ (0x2D, "ProgramStructureBlock")
    ∷ (0x2E, "UpdateSign")
    ∷ (0x2F, "SwingArm")
    ∷ (0x30, "TeleportToEntity")
    ∷ (0x31, "UseItemOn")
    ∷ (0x32, "UseItem")
    ∷ []

-- `v1_19_1`.
abbrev pub version_760 : Version
version_760 = record {
  version = 760;
  status_tables = record { to_client = status_to_client; to_server = status_to_server };
  login_tables = record { to_client = login_to_client; to_server = login_to_server };
  config_tables = none;
  play_tables = record { to_client = play_to_client; to_server = play_to_server };
}
