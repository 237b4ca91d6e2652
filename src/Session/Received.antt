-- ===== src/Session/Received.antt =====
-- `receivedHeader` and `headerSafe` of internal/gateway/server.go. The text of the date is a parameter.
use mailout_operator.Base.{
  ℕ, zero, suc, ◌-◌, ◌<◌, false, ◌||◌, [], ◌∷◌, ◌++◌, ◌≡◌, refl, ap, ◌∙◌, arith, ◌==◌, ltb,
  if◌then◌else◌, length, take, append_assoc,
}
use mailout_operator.Text.{
  Bytes, codes, contains, contains-append, rune_length, AreHigh, rune_length-AreHigh,
}
use mailout_operator.Message.{split_lines}
use mailout_operator.Message.RoundTrip.{split_lines-append}

abbrev pub header_safe_limit : ℕ
header_safe_limit = 128

-- What `strings.Map` writes at a byte, of which so many are left of the rune before. A byte that
-- starts no rune becomes U+FFFD.
unfoldable pub mapped : ℕ → ℕ → Bytes → Bytes
unfolding rune_length
mapped (suc k) c s = c ∷ []
mapped zero c s =
    if ltb c 32 || c == 127
    then b'?' ∷ []
    else if rune_length c s == 0
    then 239 ∷ 191 ∷ 189 ∷ []
    else c ∷ []

-- How many bytes of the rune are left behind the byte.
unfoldable pub left_of_rune : ℕ → ℕ → Bytes → ℕ
unfolding rune_length
left_of_rune (suc k) c s = k
left_of_rune zero c s = rune_length c s - 1

unfoldable pub map_safe : ℕ → Bytes → Bytes
unfolding mapped left_of_rune
map_safe k [] = []
map_safe k (c ∷ s) = mapped k c s ++ map_safe (left_of_rune k c s) s

abbrev pub bounded : Bytes → Bytes
bounded value = if ltb header_safe_limit (length value) then take header_safe_limit value else value

unfoldable pub header_safe : Bytes → Bytes
unfolding map_safe
header_safe value = map_safe 0 (bounded value)

-- The three lines, each behind the one before.
unfoldable pub from_line : Bytes → Bytes → Bytes
unfolding header_safe
from_line hostname remote_addr =
    codes "Received: from "
    ++ (header_safe hostname ++ (codes " (" ++ (header_safe remote_addr ++ codes ")\r")))

unfoldable pub by_line : Bytes → Bytes → Bytes
unfolding header_safe
by_line own_hostname username =
    codes "\tby "
    ++ (header_safe own_hostname
        ++ (codes " (mailout) with ESMTPSA id " ++ (header_safe username ++ codes ";\r")))

unfoldable pub date_line : Bytes → Bytes
date_line date = codes "\t" ++ (date ++ codes "\r")

unfoldable pub received_header : Bytes → Bytes → Bytes → Bytes → Bytes → Bytes
unfolding from_line by_line date_line
received_header hostname remote_addr own_hostname username date =
    from_line hostname remote_addr
    ++ b'\n' ∷ (by_line own_hostname username ++ b'\n' ∷ (date_line date ++ b'\n' ∷ []))

-- A byte that is written is no control character, unless it was copied.
mapped-contains :
    (control k c : ℕ) (s : Bytes)
    → control < 32
    → AreHigh k (c ∷ s)
    → contains control (mapped k c s) ≡ false
unfolding mapped contains
mapped-contains control zero c s h a = ground arith
mapped-contains control (suc k) c s h a = ground (arith, a.0)

left_of_rune-AreHigh : (k c : ℕ) (s : Bytes) → AreHigh k (c ∷ s) → AreHigh (left_of_rune k c s) s
unfolding left_of_rune
left_of_rune-AreHigh zero c s a = rune_length-AreHigh c s
left_of_rune-AreHigh (suc k) c s a = a.1

map_safe-contains :
    (control k : ℕ) (s : Bytes)
    → control < 32
    → AreHigh k s
    → contains control (map_safe k s) ≡ false
unfolding map_safe contains
map_safe-contains control k [] h a = refl
map_safe-contains control k (c ∷ s) h a =
    contains-append control (mapped k c s) (map_safe (left_of_rune k c s) s)
    ∙ rw (mapped-contains control k c s h a)
        (map_safe-contains control (left_of_rune k c s) s h (left_of_rune-AreHigh k c s a))

-- No control character is left in a value.
pub header_safe-contains :
    (control : ℕ) (value : Bytes) → control < 32 → contains control (header_safe value) ≡ false
unfolding header_safe
header_safe-contains control value h = map_safe-contains control 0 (bounded value) h tt

append-free :
    (c : ℕ) (x y : Bytes)
    → contains c x ≡ false
    → contains c y ≡ false
    → contains c (x ++ y) ≡ false
append-free c x y h k = contains-append c x y ∙ rw (h, k) refl

-- A line with two values in it.
two_values :
    (c : ℕ) (p q r v w : Bytes)
    → c < 32
    → contains c p ≡ false
    → contains c q ≡ false
    → contains c r ≡ false
    → contains c (p ++ (header_safe v ++ (q ++ (header_safe w ++ r)))) ≡ false
two_values c p q r v w h a b d = append-free c p (header_safe v ++ (q ++ (header_safe w ++ r))) a (
    append-free c (header_safe v) (q ++ (header_safe w ++ r)) (header_safe-contains c v h) (
      append-free c q (header_safe w ++ r) b
        (append-free c (header_safe w) r (header_safe-contains c w h) d)))

from_line-contains :
    (hostname remote_addr : Bytes) → contains b'\n' (from_line hostname remote_addr) ≡ false
unfolding from_line contains
from_line-contains hostname remote_addr =
    two_values b'\n' (codes "Received: from ") (codes " (") (codes ")\r") hostname remote_addr
      (omega arith) refl refl refl

by_line-contains :
    (own_hostname username : Bytes) → contains b'\n' (by_line own_hostname username) ≡ false
unfolding by_line contains
by_line-contains own_hostname username =
    two_values b'\n' (codes "\tby ") (codes " (mailout) with ESMTPSA id ") (codes ";\r")
      own_hostname username (omega arith) refl refl refl

date_line-contains :
    (date : Bytes) → contains b'\n' date ≡ false → contains b'\n' (date_line date) ≡ false
unfolding date_line contains
date_line-contains date h =
    append-free b'\n' (codes "\t") (date ++ codes "\r") refl
      (append-free b'\n' date (codes "\r") h refl)

one_line :
    (line rest body : Bytes)
    → contains b'\n' line ≡ false
    → split_lines ((line ++ b'\n' ∷ rest) ++ body)
      ≡ (line ++ b'\n' ∷ []) ∷ split_lines (rest ++ body)
one_line line rest body h =
    ap split_lines (append_assoc line (b'\n' ∷ rest) body)
    ∙ split_lines-append line (rest ++ body) h

-- Whatever names a client and the configuration give, the Received header is three lines in front of
-- those of the body, the second and the third of which continue the first, as long as the date has
-- no newline.
pub received_header-split_lines :
    (hostname remote_addr own_hostname username date body : Bytes)
    → contains b'\n' date ≡ false
    → split_lines (received_header hostname remote_addr own_hostname username date ++ body)
      ≡ (from_line hostname remote_addr ++ b'\n' ∷ [])
        ∷ (by_line own_hostname username ++ b'\n' ∷ [])
        ∷ (date_line date ++ b'\n' ∷ [])
        ∷ split_lines body
unfolding received_header
received_header-split_lines hostname remote_addr own_hostname username date body h =
    let first = from_line hostname remote_addr in
    let second = by_line own_hostname username in
    let third = date_line date in
    one_line first (second ++ b'\n' ∷ (third ++ b'\n' ∷ [])) body
      (from_line-contains hostname remote_addr)
    ∙ ap (λ l. (first ++ b'\n' ∷ []) ∷ l)
        (one_line second (third ++ b'\n' ∷ []) body (by_line-contains own_hostname username)
          ∙ ap (λ l. (second ++ b'\n' ∷ []) ∷ l)
              (one_line third [] body (date_line-contains date h)))
