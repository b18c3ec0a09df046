-- ===== src/Tests/Buffers.antt =====
-- The byte buffer: concrete runs.
use shero.Common.{ℕ, ◌^◌, ◌≡◌, some, arith, take}
use shero.Common.Bytes.{Bytes, codes}
use shero.Buffer.{Buffer, new, to_string, write_len, SysResult, done, iov_room, read_fd}
use shero.Buffer.Invariant.{IsValid, new-IsValid}
use shero.Buffer.Content.{empty_new}
use shero.Buffer.Io.{read_fd_refines, received}
use shero.Buffer.VarInt.{write_var_uint64, read_var_uint64}
use shero.Buffer.VarInt.RoundTrip.{read_var_uint64-write_var_uint64}
use shero.Tests.{holding, holding-IsValid}

abbrev hello : Bytes
hello = codes "hello"

-- A kernel with five bytes to give.
abbrev five_bytes : ℕ → SysResult Bytes
five_bytes room = done (take room hello)

read_fd_refines_example :
    let (n, saved, b') = read_fd five_bytes (holding hello) in
    IsValid b'
    × ((n, saved, to_string b')
        ≡ received (five_bytes (iov_room (holding hello))) (to_string (holding hello)))
read_fd_refines_example = read_fd_refines five_bytes {b = holding hello} (holding-IsValid hello)

read_var_uint64-write_var_uint64_example :
    (b' : Buffer) × (write_var_uint64 (2 ^ 63) (new 16) ≡ some b')
    × let (n, rest) = read_var_uint64 (write_len hello b') in
      (n ≡ 2 ^ 63) × (to_string rest ≡ hello) × IsValid rest
read_var_uint64-write_var_uint64_example =
    read_var_uint64-write_var_uint64 (2 ^ 63) {b = new 16} hello (omega arith) (new-IsValid 16)
      (empty_new 16)
