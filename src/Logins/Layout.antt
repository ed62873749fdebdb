-- ===== src/Logins/Layout.antt =====
-- The two layouts of a utmp record, and the choice between them. Reads are in range wherever the
-- code makes them: the loop tests the last byte that it reads first.
use mosona_manager.Decimal.{Signed, plus, minus}
use mosona_manager.Prelude.{
  Bool, List, Option, [], drop, false, if◌then◌else◌, leb, length, ltb, none, some, suc, take, true,
  zero, ℕ, ◌&&◌, ◌*◌, ◌+◌, ◌-◌, ◌==◌, ◌∷◌,
}

pub data ByteOrder : Type 0 where
  little big : ByteOrder

pub record UtmpLayout : Type 0 where
  pub record_size : ℕ
  pub time_offset : ℕ
  pub addr_offset : ℕ
  pub time64 : Bool
  pub order : ByteOrder

abbrev pub utmp_layouts : ByteOrder → List UtmpLayout
utmp_layouts order =
    record {
      record_size = 384;
      time_offset = 340;
      addr_offset = 348;
      time64 = false;
      order = order;
    }
    ∷ record {
      record_size = 400;
      time_offset = 344;
      addr_offset = 360;
      time64 = true;
      order = order;
    }
    ∷ []

unfoldable pub little_endian : List ℕ → ℕ
little_endian [] = 0
little_endian (b ∷ bs) = b + 256 * little_endian bs

unfoldable pub big_endian_from : ℕ → List ℕ → ℕ
big_endian_from acc [] = acc
big_endian_from acc (b ∷ bs) = big_endian_from (acc * 256 + b) bs

-- `order.Uint16`, `Uint32` and `Uint64` of the bytes at an offset
unfoldable pub uint : ByteOrder → ℕ → ℕ → List ℕ → ℕ
unfolding little_endian big_endian_from
uint little width offset buf = little_endian (take width (drop offset buf))
uint big width offset buf = big_endian_from 0 (take width (drop offset buf))

-- a two's complement number, of which the modulus and its half are given
unfoldable pub signed_of : ℕ → ℕ → ℕ → Signed
signed_of half modulus n = if ltb n half then plus n else minus (modulus - n)

abbrev pub width_of : UtmpLayout → ℕ
width_of l = if l.time64 then 8 else 4

unfoldable pub time_field : UtmpLayout → ℕ → List ℕ → Signed
unfolding uint signed_of
time_field l offset buf =
    if l.time64
    then signed_of 9_223_372_036_854_775_808 18_446_744_073_709_551_616 (uint l.order 8 offset buf)
    else signed_of 2_147_483_648 4_294_967_296 (uint l.order 4 offset buf)

-- `timeval`
unfoldable pub timeval : UtmpLayout → List ℕ → Signed × Signed
unfolding time_field
timeval l buf = (time_field l l.time_offset buf, time_field l (l.time_offset + width_of l) buf)

unfoldable pub plausible_sec : Signed → Bool
plausible_sec (plus n) = leb n 253_402_300_799
plausible_sec (minus n) = leb n 62_135_596_800

unfoldable pub plausible_usec : Signed → Bool
plausible_usec (plus n) = ltb n 1_000_000
plausible_usec (minus n) = false

-- the test of one record
unfoldable pub is_plausible : UtmpLayout → List ℕ → Bool
unfolding timeval plausible_sec plausible_usec
is_plausible l buf =
    let (sec, usec) = timeval l buf in
    leb (uint l.order 2 0 buf) 9 && plausible_sec sec && plausible_usec usec

-- The loop over the offsets: the score, or `none` where a record is not valid. Each turn moves on
-- by a record, so the length of the data is fuel enough.
unfoldable pub score_from : ℕ → UtmpLayout → List ℕ → ℕ → Option ℕ
unfolding is_plausible
score_from zero l buf score = some score
score_from (suc fuel) l buf score =
    let rest =
      score_from fuel l (drop l.record_size buf)
        (if uint l.order 2 0 buf == 0 then score else score + 1) in
    if ltb (length buf) (l.time_offset + 2 * width_of l)
    then some score
    else if is_plausible l buf
    then rest
    else none

-- the best layout so far, its score (`none` is -1) and how many layouts have that score
pub record Choice : Type 0 where
  pub best : Option UtmpLayout
  pub best_score : Option ℕ
  pub matches : ℕ

abbrev pub better : UtmpLayout → ℕ → Choice → Option ℕ → Choice
better l score c none = record { best = some l; best_score = some score; matches = 1 }
better l score c (some best) =
    if ltb best score
    then record { best = some l; best_score = some score; matches = 1 }
    else if score == best
    then record c { matches = c.matches + 1 }
    else c

abbrev pub consider : UtmpLayout → Option ℕ → Choice → Choice
consider l none c = c
consider l (some score) c = better l score c c.best_score

unfoldable pub choose : List ℕ → List UtmpLayout → Choice → Choice
unfolding score_from
choose buf [] c = c
choose buf (l ∷ ls) c = choose buf ls (consider l (score_from (length buf + 1) l buf 0) c)

-- `detectUtmpLayout`; `none` is its answer false
unfoldable pub detect_utmp_layout : List ℕ → ByteOrder → Option UtmpLayout
unfolding choose
detect_utmp_layout buf order =
    let c =
      choose buf (utmp_layouts order) (record { best = none; best_score = none; matches = 0 }) in
    if ltb (length buf) 360 then none else if c.matches == 1 then c.best else none
