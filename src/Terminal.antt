-- ===== src/Terminal.antt =====
-- internal/browserterm: shells and commands on the machines, and what the manager of them relies on.
pub mod Output
pub mod Attachments
pub mod Shells
pub mod Sessions
pub mod Close
pub mod Tokens
pub mod Opening
pub mod Closing
pub mod Isolation
pub mod Machines
pub mod Failures
pub mod Execs
pub mod Finishing
pub mod Cancelling
pub mod Sparing
pub mod Quoting
pub mod Git
pub mod Splitting
pub mod Guest
pub mod Subscribers
pub mod Channels
pub mod Streams
pub mod Delivery
pub mod Porcelain
use fascinate.Base.{◌≡◌, ℕ, Bool, List}
use fascinate.Base.Text.{Text, trim_space}
use fascinate.Result.{Error}
use fascinate.Database.Records.{World}
use fascinate.Database.Monad.{M}

-- What browserterm uses of controlplane.Machine.
pub record GuestMachine : Type 0 where
  pub id : Text
  pub name : Text
  pub state : Text
  pub host_id : Text
  pub has_runtime : Bool

-- browserterm.Manager: its configuration, and machineManager, the interface by which it asks for a
-- machine. The time to live is in nanoseconds. The digest, the hexadecimal text of bytes and the texts
-- of errors are not part of the model.
pub record TerminalService : Type 0 where
  pub local_host_id : Text
  pub terminal_session_ttl : ℕ
  pub sha256 : Text → List ℕ
  pub encode_hex : List ℕ → Text
  pub error_text : Error → Text
  pub find_machine : Text → Text → M GuestMachine

-- What the manager relies on: asking for a machine leaves the shells, the commands and the time alone.
pub record FindsMachines (s : TerminalService) : Type 0 where
  pub keeps_terminals :
      (name email : Text) (w : World) → (s.find_machine name email w).1.terminals ≡ w.terminals
  pub keeps_now : (name email : Text) (w : World) → (s.find_machine name email w).1.now ≡ w.now

module _ (s : TerminalService) where
  -- hashToken
  unfoldable pub token_digest : Text → Text
  token_digest token = s.encode_hex (s.sha256 (trim_space token))
