-- ===== src/Wallet/InfoLaws.antt =====
-- src/Wallet.cpp: what is read of the wallet's API: the text of a transfer, and the bytes of a signature.
use mathlib.Core.List.{append_assoc, append-nil, flatten}
use cpp_burst_pool_node.Base.{
  ℕ, zero, suc, ◌+◌, ◌/◌, ◌%◌, ◌<◌, ◌≡◌, refl, sym, ap, ◌∙◌, true, false, some, List, [], ◌∷◌, ◌++◌,
  length, ltb, if◌then◌else◌, >>=-eq-some, some-eq-some, All, arith,
}
use cpp_burst_pool_node.Wallet.State.{Text, Wallet}
use cpp_burst_pool_node.Wallet.Info.{hex_digit, scan_gensig}
use cpp_burst_pool_node.Wallet.Refresh.{Transfer, receive, get_mining_info}

receive_lem : (res : Text) (chunks : List Text) → receive res chunks ≡ res ++ flatten chunks
unfolding receive flatten
receive_lem res [] = sym (append-nil res)
receive_lem res (c ∷ cs) = receive_lem (res ++ c) cs ∙ append_assoc res c (flatten cs)

-- From an empty buffer, a transfer that fails and then one that succeeds: the second is read with
-- the text of the first in front.
pub get_mining_info-after_failure :
    (broken good : Transfer) (w : Wallet)
    → broken.succeeds ≡ false
    → good.succeeds ≡ true
    → w.mining_info_res ≡ []
    → (get_mining_info good (get_mining_info broken w).0).1
      ≡ flatten broken.chunks ++ flatten good.chunks
unfolding get_mining_info
get_mining_info-after_failure broken good w f t e =
    rw (f, t, e, receive_lem (receive [] broken.chunks) good.chunks, receive_lem [] broken.chunks)

-- The digits of a byte.
abbrev hex_char : ℕ → ℕ
hex_char d = if ltb d 10 then 48 + d else 87 + d

abbrev pub hex_text : List ℕ → Text
hex_text [] = []
hex_text (b ∷ bs) = hex_char (b / 16) ∷ hex_char (b % 16) ∷ hex_text bs

hex_digit-hex_char : (d : ℕ) → d < 16 → hex_digit (hex_char d) ≡ some d
unfolding hex_digit
hex_digit-hex_char d h = ground arith

-- Bytes, each below 256, written as pairs of lower-case hexadecimal digits are read back,
-- whatever text follows.
pub scan_gensig-hex_text :
    (bytes : List ℕ) (rest : Text)
    → All (λ b. b < 256) bytes
    → scan_gensig (length bytes) (hex_text bytes ++ rest) ≡ some bytes
unfolding scan_gensig
scan_gensig-hex_text [] rest h = refl
scan_gensig-hex_text (b ∷ bs) rest h =
    rw
      (
        hex_digit-hex_char (b / 16) (omega (arith, h.0)),
        hex_digit-hex_char (b % 16) (omega arith),
        scan_gensig-hex_text bs rest h.1,
      )
      (ap (λ (n : ℕ). some (n ∷ bs)) (omega arith))

pub length-scan_gensig :
    (n : ℕ) (text : Text) (bytes : List ℕ) → scan_gensig n text ≡ some bytes → length bytes ≡ n
unfolding scan_gensig
length-scan_gensig zero text bytes h = ap length (sym (some-eq-some h))
length-scan_gensig (suc n) [] bytes h = cc
length-scan_gensig (suc n) (a ∷ []) bytes h = cc
length-scan_gensig (suc n) (a ∷ b ∷ text) bytes h =
    let (high, _, h1) = >>=-eq-some (hex_digit a) _ h in
    let (low, _, h2) = >>=-eq-some (hex_digit b) _ h1 in
    let (rest, r, h3) = >>=-eq-some (scan_gensig n text) _ h2 in
    ap length (sym (some-eq-some h3)) ∙ ap suc (length-scan_gensig n text rest r)
