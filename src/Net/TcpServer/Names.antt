-- ===== src/Net/TcpServer/Names.antt =====
-- The names that a server gives to its connections.
use tzzero_http.Prelude.{
  ℕ, zero, suc, ◌≤◌, ◌<◌, ◌≡◌, refl, sym, ap, ◌∙◌, arith, [], ◌∷◌, ◌++◌, Bytes, take, drop, length,
  length-append, drop-append_all,
}
use tzzero_http.Http.Numbers.{decimal, length-decimal, decimal_injective}
use tzzero_http.Net.TcpServer.{conn_name}

take_whole : (n : ℕ) (xs : Bytes) → length xs ≤ n → take n xs ≡ xs
take_whole zero [] h = refl
take_whole zero (x ∷ xs) h = absurd (omega arith)
take_whole (suc n) [] h = refl
take_whole (suc n) (x ∷ xs) h = ap (◌∷◌ x) (take_whole n xs (omega arith))

append_cancel : (xs ys zs : Bytes) → xs ++ ys ≡ xs ++ zs → ys ≡ zs
append_cancel xs ys zs h =
    sym (drop-append_all xs ys) ∙ ap (drop (length xs)) h ∙ drop-append_all xs zs

tail : Bytes → Bytes
tail [] = []
tail (x ∷ xs) = xs

conn_name_whole :
    (name ip_port : Bytes) (id : ℕ)
    → length ip_port ≤ 51
    → id < 2147483648
    → conn_name name ip_port id ≡ name ++ (b'-' ∷ ip_port ++ b'#' ∷ decimal id)
unfolding conn_name
conn_name_whole name ip_port id h l = ap (◌++◌ name) (
    take_whole 63 (b'-' ∷ ip_port ++ b'#' ∷ decimal id)
      (omega (arith, length-append ip_port (b'#' ∷ decimal id), length-decimal 9 id (omega arith))))

-- Two connections of a server have different names.
pub conn_name_injective :
    (name ip_port : Bytes) (a b : ℕ)
    → length ip_port ≤ 51
    → a < 2147483648
    → b < 2147483648
    → conn_name name ip_port a ≡ conn_name name ip_port b
    → a ≡ b
unfolding tail
conn_name_injective name ip_port a b h la lb e = decimal_injective a b (omega arith) (omega arith) (
    ap tail (
      append_cancel ip_port (b'#' ∷ decimal a) (b'#' ∷ decimal b) (
        ap tail (
          append_cancel name (b'-' ∷ ip_port ++ b'#' ∷ decimal a)
            (b'-' ∷ ip_port ++ b'#' ∷ decimal b)
            (sym (conn_name_whole name ip_port a h la)
              ∙ e
              ∙ conn_name_whole name ip_port b h lb)))))
