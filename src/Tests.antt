-- ===== src/Tests.antt =====
-- Runs of the model on concrete inputs, and each theorem with a hypothesis at one of them.
mod Buffers
mod Web
mod Sessions
mod Reactors
mod Frames
mod Connections
mod Loops
mod Sockets
mod Peers
use shero.Common.{ℕ, ◌≡◌, ap, ◌∙◌, List, [], ◌++◌}
use shero.Common.Bytes.{Bytes}
use shero.Buffer.{Buffer, new, write_len, to_string}
use shero.Buffer.Invariant.{IsValid, new-IsValid, write_len-IsValid}
use shero.Buffer.Content.{write_len-to_string, empty_new}
use shero.Buffer.Network.{Holds}

-- A buffer into which `xs` was written.
pub holding : Bytes → Buffer
holding xs = write_len xs (new 16)

pub holding-IsValid : (xs : Bytes) → IsValid (holding xs)
unfolding holding
holding-IsValid xs = write_len-IsValid xs (new-IsValid 16)

pub holding-to_string : (xs : Bytes) → to_string (holding xs) ≡ xs
unfolding holding
holding-to_string xs = write_len-to_string xs (new-IsValid 16) ∙ ap (λ t. t ++ xs) (empty_new 16)

pub holding-Holds : (xs : Bytes) → Holds (holding xs) xs
holding-Holds xs = record { valid = holding-IsValid xs; text = holding-to_string xs }
