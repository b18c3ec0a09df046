-- ===== src/Tcp/Server/Names.antt =====
-- The names that shero/net/tcp/TcpServer.cc gives to its connections.
use shero.Common.{
  ℕ, ◌^◌, ◌≤◌, ◌<◌, ◌≡◌, ap, sym, ◌∙◌, ◌∷◌, ◌++◌, length, take, take_all, drop, drop-append_self,
}
use shero.Common.Bytes.{Bytes, decimal}
use shero.Http.Client.Response.{string2uint64}
use shero.Http.Client.Length.{string2uint64-decimal}
use shero.Tcp.Server.{conn_name}

append_cancel : (xs ys zs : Bytes) → xs ++ ys ≡ xs ++ zs → ys ≡ zs
append_cancel xs ys zs e =
    sym (drop-append_self xs ys) ∙ ap (drop (length xs)) e ∙ drop-append_self xs zs

decimal_injective : (m n : ℕ) → m < 2 ^ 64 → n < 2 ^ 64 → decimal m ≡ decimal n → m ≡ n
decimal_injective m n hm hn e =
    sym (string2uint64-decimal m hm) ∙ ap string2uint64 e ∙ string2uint64-decimal n hn

-- Two connections of one server have the same name only if they have the same number, where the
-- address and the number fit in the 63 characters of the buffer.
pub conn_name_injective :
    (name_arg local_addr : Bytes) (m n : ℕ)
    → m < 2 ^ 64
    → n < 2 ^ 64
    → length (local_addr ++ (b'#' ∷ decimal m)) ≤ 63
    → length (local_addr ++ (b'#' ∷ decimal n)) ≤ 63
    → conn_name name_arg local_addr m ≡ conn_name name_arg local_addr n
    → m ≡ n
unfolding conn_name
conn_name_injective name_arg local_addr m n hm hn fm fn e =
    let cut =
      append_cancel name_arg (take 63 (local_addr ++ (b'#' ∷ decimal m)))
        (take 63 (local_addr ++ (b'#' ∷ decimal n))) e in
    let whole =
      sym (take_all 63 (local_addr ++ (b'#' ∷ decimal m)) fm)
      ∙ cut
      ∙ take_all 63 (local_addr ++ (b'#' ∷ decimal n)) fn in
    let tail = append_cancel local_addr (b'#' ∷ decimal m) (b'#' ∷ decimal n) whole in
    decimal_injective m n hm hn (ap (drop 1) tail)
