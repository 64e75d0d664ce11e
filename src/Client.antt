-- ===== src/Client.antt =====
-- The browser client: client/src/lib.
pub mod SocketIo
pub mod SocketManager
pub mod Rooms
pub mod RoomsHeld
pub mod Reconnect
pub mod CampaignStatus
pub mod Presentation
pub mod Dispute
pub mod MayDispute
pub mod Analytics
pub mod Replay
pub mod Events
pub mod Toasts
pub mod Reason
pub mod Listed
pub mod Rest
pub mod Failures
pub mod ContractClient
pub mod QueryKeys
pub mod Mutations
pub mod Mutate
pub mod Signatures
pub mod Symbols
pub mod Admin
pub mod EscrowGuards
pub mod Panel
pub mod Validated
pub mod Accepted
pub mod CreateCampaign
pub mod Wizard
pub mod WizardSafe
pub mod Sent
pub mod MadeOnce
pub mod FirstMatch
pub mod ContractTests
pub mod FormTests
pub mod Tests
