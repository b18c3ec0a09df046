-- ===== src/Tcp/Connection/Errors.antt =====
-- What the connection does on the errors of its system calls, and when it is closed twice.
use shero.Common.{
  ℕ, ◌<◌, ◌≡◌, refl, ◌∙◌, true, [], ◌∷◌, ◌==◌, arith, drop_all, Bool-cases, inl, inr,
}
use shero.Common.Bytes.{Bytes}
use shero.Buffer.{
  SysResult, failed, readable_bytes, to_string, retrieve, size_max, read_fd, write_fd,
}
use shero.Buffer.Invariant.{length-to_string}
use shero.Buffer.Content.{retrieve-to_string}
use shero.Net.Channel.{is_writing, del_all_listen_events}
use shero.Tcp.Connection.{
  TcpConnection, disconnected, update_to_loop, connection_callback, close_callback,
  message_callback, ran, force_close_in_loop, handle_read, after_read, handle_write, drained,
  after_retrieve, is_connected,
}
use shero.Tcp.Connection.Stream.{IsFlushing, written, written-drained}

-- A failed read is taken for data: whatever the error, `handleRead` makes the message callback on
-- the unchanged input, and never handles the error.
pub handle_read_failed :
    (readv : ℕ → SysResult Bytes) (errno : ℕ) (c : TcpConnection)
    → ((room : ℕ) → readv room ≡ failed errno)
    → handle_read readv c ≡ ran c (message_callback c.input ∷ [])
unfolding handle_read after_read read_fd
handle_read_failed readv errno c h = rw (h _) refl

after_retrieve_all :
    (c : TcpConnection)
    → to_string c.output ≡ []
    → (written (after_retrieve [] c).1 ≡ []) × (to_string (after_retrieve [] c).0.output ≡ [])
unfolding after_retrieve drained
after_retrieve_all c e = elim (Bool-cases (readable_bytes c.output == 0)) [
  | inl h ↦ rw h (written-drained c, e)
  | inr h ↦ rw h (refl, e)
]

-- A failed write drops the output: `handleWrite` takes -1 for a count, so that nothing is written
-- and the output buffer of fewer than 2 ^ 64 - 1 bytes is emptied, whatever the error.
pub handle_write_failed :
    (write : Bytes → SysResult ℕ) (errno : ℕ) (c : TcpConnection)
    → IsFlushing c
    → is_writing c.channel ≡ true
    → readable_bytes c.output < size_max
    → write (to_string c.output) ≡ failed errno
    → (written (handle_write write c).1 ≡ []) × (to_string (handle_write write c).0.output ≡ [])
unfolding handle_write write_fd
handle_write_failed write errno c f w small e =
    rw (w, e)
      (after_retrieve_all (record c { output = retrieve size_max c.output })
        (retrieve-to_string size_max f.valid
          ∙ drop_all size_max (to_string c.output) (omega (arith, length-to_string f.valid))))

-- `forceCloseInLoop` closes the connection from every state, one that is disconnected included: it
-- calls the connection callback and the close callback again.
pub force_close_in_loop_always :
    (c : TcpConnection)
    → let ch = del_all_listen_events c.channel in
      force_close_in_loop c
      ≡ ran
          (record c { state = disconnected; channel = ch })
          (update_to_loop ch ∷ connection_callback disconnected ∷ close_callback ∷ [])
unfolding force_close_in_loop
force_close_in_loop_always c = elim (Bool-cases (is_connected c.state)) [
  | inl e ↦ rw (e, e) refl
  | inr e ↦ rw e refl
]
