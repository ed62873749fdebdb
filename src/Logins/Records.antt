-- ===== src/Logins/Records.antt =====
-- A login from a record, and all complete records of a file.
use mathlib.Core.Path.{ap₂}
use mosona_manager.Decimal.{Signed, print, plus, minus}
use mosona_manager.Logins.Layout.{UtmpLayout, uint, timeval}
use native.Mathlib.Numerals.{add-one}
use mosona_manager.Prelude.{
  Bool, Bool-cases, List, Option, [], ap, arith, drop, drop-append, false, if◌then◌else◌, inl, inr,
  length, length-append, length-drop, le→ltb-false, ltb, ltb-false, lt→ltb, none, not, some, suc,
  take, take-append, true, zero, ℕ, ◌&&◌, ◌++◌, ◌+◌, ◌<◌, ◌==◌, ◌||◌, ◌∙◌, ◌∷◌, ◌≡◌, ◌≤◌,
}

-- what `strings` and `net` do: trimming space, and writing and reading addresses
pub record Library : Type 0 where
  pub trim_space : List ℕ → List ℕ
  pub ip_string : List ℕ → List ℕ
  pub parse_ip : List ℕ → Option (List ℕ)

pub record Record : Type 0 where
  pub user : List ℕ
  pub tty : List ℕ
  pub ip : List ℕ
  pub time : Signed

abbrev pub print_signed : Signed → List ℕ
print_signed (plus n) = print n
print_signed (minus n) = b'-' ∷ print n

unfoldable pub key : Record → List ℕ
key r = r.user ++ b'|' ∷ (r.tty ++ b'|' ∷ (r.ip ++ b'|' ∷ print_signed r.time))

unfoldable pub until_zero : List ℕ → List ℕ
until_zero [] = []
until_zero (c ∷ cs) = if c == 0 then [] else c ∷ until_zero cs

unfoldable pub all_zero : List ℕ → Bool
all_zero [] = true
all_zero (c ∷ cs) = c == 0 && all_zero cs

abbrev pub is_empty : List ℕ → Bool
is_empty [] = true
is_empty (c ∷ cs) = false

module _ (lib : Library) where
  unfoldable pub trim_c_field : List ℕ → ℕ → ℕ → List ℕ
  unfolding until_zero
  trim_c_field buf offset len = lib.trim_space (until_zero (take len (drop offset buf)))

  abbrev pub written : Option (List ℕ) → List ℕ
  written none = []
  written (some ip) = lib.ip_string ip

  -- `utmpIP`
  unfoldable pub utmp_ip : List ℕ → UtmpLayout → List ℕ
  unfolding all_zero trim_c_field
  utmp_ip buf layout =
      let addr = take 16 (drop layout.addr_offset buf) in
      if not (all_zero addr)
      then (if all_zero (drop 4 addr) then lib.ip_string (take 4 addr) else lib.ip_string addr)
      else written (lib.parse_ip (trim_c_field buf 76 256))

  -- `parseUtmpRecord`
  unfoldable pub parse_utmp_record : List ℕ → UtmpLayout → Option Record
  unfolding utmp_ip
  parse_utmp_record buf layout =
      let rec_ : Record = record {
        user = trim_c_field buf 44 32;
        tty = trim_c_field buf 8 32;
        ip = utmp_ip buf layout;
        time = (timeval layout buf).0;
      } in
      if not (length buf == layout.record_size)
      then none
      else if not (uint layout.order 2 0 buf == 7)
      then none
      else if is_empty rec_.user || is_empty rec_.ip
      then none
      else some rec_

  abbrev pub push : Option Record → List Record → List Record
  push none rest = rest
  push (some r) rest = r ∷ rest

  -- `parseUtmpRecords`, with fuel for the records: each takes away at least one byte
  unfoldable pub parse_fuel : ℕ → List ℕ → UtmpLayout → List Record
  parse_fuel zero buf layout = []
  parse_fuel (suc fuel) buf layout =
      let size = layout.record_size in
      let rest = parse_fuel fuel (drop size buf) layout in
      if ltb (length buf) size then [] else push (parse_utmp_record (take size buf) layout) rest

  unfoldable pub parse_utmp_records : List ℕ → UtmpLayout → List Record
  unfolding parse_fuel
  parse_utmp_records buf layout = parse_fuel (length buf + 1) buf layout

  parse_long :
      (f : ℕ) (buf : List ℕ) (layout : UtmpLayout)
      → layout.record_size ≤ length buf
      → parse_fuel (f + 1) buf layout
        ≡ push
            (parse_utmp_record (take layout.record_size buf) layout)
            (parse_fuel f (drop layout.record_size buf) layout)
  unfolding parse_fuel
  parse_long f buf layout h = rw (add-one, le→ltb-false (length buf) layout.record_size h)

  -- Enough fuel: more makes no difference, where a record has a size.
  parse_fuel-enough :
      (f g : ℕ) (buf : List ℕ) (layout : UtmpLayout)
      → 0 < layout.record_size
      → length buf < f
      → length buf < g
      → parse_fuel f buf layout ≡ parse_fuel g buf layout
  unfolding parse_fuel
  parse_fuel-enough zero g buf layout p h k = absurd (omega arith)
  parse_fuel-enough (suc f) zero buf layout p h k = absurd (omega arith)
  parse_fuel-enough (suc f) (suc g) buf layout p h k =
      let size = layout.record_size in
      elim (Bool-cases (ltb (length buf) size)) [
        | inl e ↦ rw e
        | inr e ↦
            let long = ltb-false (length buf) size e in
            rw e (
              ap (push (parse_utmp_record (take size buf) layout)) (
                parse_fuel-enough f g (drop size buf) layout p (omega (arith, length-drop size buf))
                  (omega (arith, length-drop size buf))))
      ]

  parse_step :
      (r rest : List ℕ) (layout : UtmpLayout)
      → 0 < layout.record_size
      → length r ≡ layout.record_size
      → parse_utmp_records (r ++ rest) layout
        ≡ push (parse_utmp_record r layout) (parse_utmp_records rest layout)
  unfolding parse_utmp_records
  parse_step r rest layout p h =
      let size = layout.record_size in
      let total = length-append r rest in
      parse_long (length (r ++ rest)) (r ++ rest) layout (omega arith)
      ∙ ap₂ (λ a b. push (parse_utmp_record a layout) (parse_fuel (length (r ++ rest)) b layout))
          (rw (← h) (take-append r rest)) (rw (← h) (drop-append r rest))
      ∙ ap (push (parse_utmp_record r layout)) (
          parse_fuel-enough (length (r ++ rest)) (length rest + 1) rest layout p (omega arith)
            (omega arith))

  parse_short :
      (tail : List ℕ) (layout : UtmpLayout)
      → length tail < layout.record_size
      → parse_utmp_records tail layout ≡ []
  unfolding parse_utmp_records parse_fuel
  parse_short tail layout h = rw (add-one, lt→ltb _ _ h)

  -- what a file's records hold
  abbrev logins : UtmpLayout → List (List ℕ) → List Record
  logins layout [] = []
  logins layout (r ∷ rs) = push (parse_utmp_record r layout) (logins layout rs)

  abbrev concat : List (List ℕ) → List ℕ → List ℕ
  concat [] tail = tail
  concat (r ∷ rs) tail = r ++ concat rs tail

  abbrev pub EachSized : ℕ → List (List ℕ) → Type 0
  EachSized size [] = Unit
  EachSized size (r ∷ rs) = (length r ≡ size) × EachSized size rs

  -- Of a file that ends in the middle of a record, as it does while one is appended, the logins
  -- are those of its complete records, each once and in order, and the unfinished end is left out.
  parse_utmp_records_lem :
      (rs : List (List ℕ)) (tail : List ℕ) (layout : UtmpLayout)
      → 0 < layout.record_size
      → EachSized layout.record_size rs
      → length tail < layout.record_size
      → parse_utmp_records (concat rs tail) layout ≡ logins layout rs
  parse_utmp_records_lem [] tail layout p h k = parse_short tail layout k
  parse_utmp_records_lem (r ∷ rs) tail layout p h k =
      parse_step r (concat rs tail) layout p h.0
      ∙ ap (push (parse_utmp_record r layout)) (parse_utmp_records_lem rs tail layout p h.1 k)
