-- ===== src/Buffer.antt =====
-- shero/net/Buffer.h and shero/net/Buffer.cc: the byte buffer under every connection.
-- `m_buffer` is the list of its bytes; `m_readIndex` and `m_writeIndex` are positions in it. A
-- pointer into the storage is its position from `begin()`. Each method returns the new buffer.
-- Positions stay far below 2 ^ 64, so a sum of two is written without the wrap of `size_t`; no
-- difference goes below 0 on a valid buffer.
pub mod Invariant
pub mod Content
pub mod Io
pub mod Fixed
pub mod Network
pub mod Signed
pub mod VarInt
use shero.Common.{
  ℕ, zero, suc, ◌+◌, ◌-◌, ◌^◌, Bool, Option, none, some, List, [], ◌∷◌, ◌++◌, ltb, leb, ◌==◌,
  if◌then◌else◌, length, take, drop, replicate, ◌&&◌,
}
use shero.Common.Bytes.{Bytes}

pub record Buffer : Type 0 where
  pub read_index : ℕ
  pub write_index : ℕ
  pub bytes : Bytes

abbrev pub free_prepend : ℕ
free_prepend = 8

abbrev pub initial_size : ℕ
initial_size = 1024

-- `Buffer(size_t initialSize)`.
unfoldable pub new : ℕ → Buffer
new size = record {
  read_index = free_prepend;
  write_index = free_prepend;
  bytes = replicate (free_prepend + size) 0;
}

unfoldable pub readable_bytes : Buffer → ℕ
readable_bytes b = b.write_index - b.read_index

unfoldable pub writeable_bytes : Buffer → ℕ
writeable_bytes b = length b.bytes - b.write_index

unfoldable pub prependable_bytes : Buffer → ℕ
prependable_bytes b = b.read_index

-- `std::vector::resize`: cuts, or pads with zero bytes.
abbrev pub resize : Bytes → ℕ → Bytes
resize xs n = take n xs ++ replicate (n - length xs) 0

-- `memcpy` and `std::copy` onto position `i`.
abbrev pub overwrite : Bytes → ℕ → Bytes → Bytes
overwrite xs i ys = take i xs ++ (ys ++ drop (i + length ys) xs)

-- The bytes from `readIndex()` up to `writeIndex()`.
unfoldable pub to_string : Buffer → Bytes
to_string b = take (b.write_index - b.read_index) (drop b.read_index b.bytes)

unfoldable pub retrieve_all : Buffer → Buffer
retrieve_all b = record b { read_index = free_prepend; write_index = free_prepend }

unfoldable pub retrieve : ℕ → Buffer → Buffer
unfolding readable_bytes retrieve_all
retrieve len b =
    if ltb (readable_bytes b) len
    then retrieve_all b
    else record b { read_index = b.read_index + len }

-- The two asserts: `none` where one fails.
unfoldable pub retrieve_until : ℕ → Buffer → Option Buffer
unfolding retrieve
retrieve_until end b =
    if leb b.read_index end && leb end b.write_index
    then some (retrieve (end - b.read_index) b)
    else none

-- `memcpy(buf, readIndex(), len)`: the bytes at the read position, within the storage.
abbrev pub peek : ℕ → Buffer → Bytes
peek len b = take len (drop b.read_index b.bytes)

unfoldable pub read_len : ℕ → Buffer → Bytes × Buffer
unfolding retrieve
read_len len b = (peek len b, retrieve len b)

unfoldable pub retrieve_as_string : ℕ → Buffer → Bytes × Buffer
unfolding retrieve
retrieve_as_string len b = (peek len b, retrieve len b)

unfoldable pub retrieve_all_as_string : Buffer → Bytes × Buffer
unfolding retrieve_as_string readable_bytes
retrieve_all_as_string b = retrieve_as_string (readable_bytes b) b

-- Grow at the end, or move the unread bytes back to the front.
unfoldable pub resize_buffer : ℕ → Buffer → Buffer
unfolding readable_bytes writeable_bytes prependable_bytes to_string
resize_buffer len b =
    if ltb (writeable_bytes b + prependable_bytes b) (len + free_prepend)
    then record b { bytes = resize b.bytes (b.write_index + len) }
    else record {
      read_index = free_prepend;
      write_index = free_prepend + readable_bytes b;
      bytes = overwrite b.bytes free_prepend (to_string b);
    }

unfoldable pub ensure_writeable_bytes : ℕ → Buffer → Buffer
unfolding writeable_bytes resize_buffer
ensure_writeable_bytes len b = if ltb (writeable_bytes b) len then resize_buffer len b else b

-- `memcpy(writeIndex(), data, len)` and the new write position.
unfoldable pub put : Bytes → Buffer → Buffer
put xs b = record b {
  bytes = overwrite b.bytes b.write_index xs;
  write_index = b.write_index + length xs;
}

unfoldable pub write_len : Bytes → Buffer → Buffer
unfolding ensure_writeable_bytes put
write_len xs b = put xs (ensure_writeable_bytes (length xs) b)

-- `std::search` for "\r\n" in a range; the position counts from the start of the range.
unfoldable pub search_crlf : Bytes → Option ℕ
search_crlf [] = none
search_crlf (x ∷ []) = none
search_crlf (x ∷ y ∷ xs) =
    let rest = search_crlf (y ∷ xs) in
    if x == 13 && y == 10 then some 0 else elim rest [ none ↦ none | some i ↦ some (suc i) ]

unfoldable pub find_crlf : Buffer → Option ℕ
find_crlf b = elim (search_crlf (to_string b)) [ none ↦ none | some i ↦ some (b.read_index + i) ]

-- What a system call gives: -1 with `errno`, or a result.
pub data SysResult (A : Type 0) : Type 0 where
  failed : ℕ → SysResult A
  done : A → SysResult A

-- `sizeof(buf)` of the stack buffer of `readFd`.
abbrev pub extra_size : ℕ
extra_size = 65536

-- -1 as a `size_t`.
abbrev pub size_max : ℕ
size_max = 2 ^ 64 - 1

-- The room that `readFd` offers to `readv`.
unfoldable pub iov_room : Buffer → ℕ
unfolding writeable_bytes
iov_room b =
    if ltb (writeable_bytes b) extra_size then writeable_bytes b + extra_size else writeable_bytes b

-- `readFd`: what it returns, `*saveErrno` where it is set, and the buffer. `kernel n` is what
-- `readv` gives for iovecs of `n` bytes in all.
read_result : SysResult Bytes → Buffer → ℕ × Option ℕ × Buffer
read_result (failed e) b = (size_max, some e, b)
read_result (done got) b =
    let room = writeable_bytes b in
    (
      length got,
      none,
      if leb (length got) room
          then put got b
          else write_len (drop room got) (record b {
            bytes = overwrite b.bytes b.write_index (take room got);
            write_index = length b.bytes;
          }),
    )

unfoldable pub read_fd : (ℕ → SysResult Bytes) → Buffer → ℕ × Option ℕ × Buffer
unfolding read_result
read_fd kernel b = read_result (kernel (iov_room b)) b

-- `writeFd`: `::write` of the readable bytes. The buffer is left to the caller.
write_result : SysResult ℕ → ℕ × Option ℕ
write_result (failed e) = (size_max, some e)
write_result (done n) = (n, none)

unfoldable pub write_fd : (Bytes → SysResult ℕ) → Buffer → ℕ × Option ℕ
unfolding write_result
write_fd kernel b = write_result (kernel (to_string b))
