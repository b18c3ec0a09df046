-- ===== src/WebSocket/Handshake.antt =====
-- The key that shero/net/websocket/WSServer.cc answers and WSClient.cc expects. `sha1` and `base64`
-- are OpenSSL's, as `SHA1sum` and `Encodebase64` of shero/base/Util.cc call them.
use shero.Common.{◌++◌}
use shero.Common.Bytes.{Bytes, codes}

abbrev pub guid : Bytes
guid = codes "T2a6wZlAwhgQNqruZ2YUyg="

module _ (sha1 base64 : Bytes → Bytes) where
  unfoldable pub accept_key : Bytes → Bytes
  accept_key key = base64 (sha1 (key ++ guid))
