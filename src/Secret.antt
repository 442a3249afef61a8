-- ===== src/Secret.antt =====
-- Mask in core/secret/mask.go, on the bytes of the text: how a secret is shown.
use nfrx.Prelude.{ℕ, List, drop, if◌then◌else◌, leb, length, replicate, suc, take, ◌++◌, ◌-◌}
pub mod Masked
mod Examples

abbrev pub star : ℕ
star = b'*'

-- The first bytes, stars, and the last byte of a text of `n` bytes.
abbrev pub show_ends : ℕ → ℕ → List ℕ → List ℕ
show_ends shown n s = take shown s ++ replicate (n - suc shown) star ++ drop (n - 1) s

unfoldable pub mask : List ℕ → List ℕ
mask s =
    let n = length s in
    if leb n 5 then replicate n star else if leb n 20 then show_ends 1 n s else show_ends 3 n s
