-- ===== src/Replay/Window.antt =====
-- The sliding window of one replay record, `oc_replay_check_client` after its lookup.
use knx_iot_stack.Prelude.{
  sym, ◌∙◌, ℕ, ◌+◌, ◌-◌, ◌*◌, ◌^◌, ◌≤◌, ◌<◌, ◌≡◌, ◌≢◌, ◌⊎◌, refl, arith, true, ltb, leb, ◌==◌,
  if◌then◌else◌, bit_or, ==_iff, dec_lt,
}
use knx_iot_stack.Prelude.Bits.{
  passes_below, passes_below-at, testbit, bit_and-pow, testbit-bit_or_pow, testbit-shift,
  testbit-mod,
}
use knx_iot_stack.Replay.{
  ReplayRecord, Verdict, accept, reject, undefined, sub64, shl32, check_old, check_new,
  check_record,
}

-- SSNs are 5-byte numbers on the wire; the code works as long as they fit 63 bits.
abbrev pub ssn_limit : ℕ
ssn_limit = 2 ^ 63

-- The record knows that the SSN `a` was received: it has fallen out of the window, or its bit is
-- set.
abbrev pub Spent : ReplayRecord → ℕ → Type 0
Spent r a = (a ≤ r.rx_ssn) × ((a + 32 ≤ r.rx_ssn) ⊎ (testbit r.window (r.rx_ssn - a) ≡ true))

shl32_one_table : passes_below (λ d. shl32 1 d == 2 ^ d) 32 ≡ true
unfolding passes_below
shl32_one_table = refl

shl32_one : (d : ℕ) → d < 32 → shl32 1 d ≡ 2 ^ d
shl32_one d h = (==_iff _ _).0 (passes_below-at _ 32 {k = d} h shl32_one_table)

-- The bit that the code tests and sets is bit `diff`.
check_old_bit :
    (r : ReplayRecord) (d : ℕ)
    → d < 32
    → check_old r d ≡ (
        if testbit r.window d
        then (reject, r)
        else (accept, record r { window = bit_or r.window (2 ^ d) }))
unfolding check_old
check_old_bit r d h = rw (shl32_one d h) (ground (arith, bit_and-pow r.window d))

check_old_far :
    (r : ReplayRecord) (d : ℕ) → 32 ≤ d → check_old r d ≡ (if d == 32 then undefined else reject, r)
unfolding check_old
check_old_far r d h = ground arith

check_old-Spent : (r : ReplayRecord) (d a : ℕ) → Spent r a → Spent (check_old r d).1 a
check_old-Spent r d a s = elim (dec_lt d 32) [
  | yes h ↦ rw (check_old_bit r d h) (ground (arith, testbit-bit_or_pow r.window d (r.rx_ssn - a)))
  | no h ↦ rw (check_old_far r d (omega arith)) s
]

check_old-accept :
    (r : ReplayRecord) (d : ℕ)
    → d ≤ r.rx_ssn
    → (check_old r d).0 ≡ accept
    → Spent (check_old r d).1 (r.rx_ssn - d)
check_old-accept r d h e = elim (dec_lt d 32) [
  | yes p ↦
      ground (arith, check_old_bit r d p, testbit-bit_or_pow r.window d (r.rx_ssn - (r.rx_ssn - d)))
  | no p ↦ ground (arith, check_old_far r d)
]

check_old-Spent_bit :
    (r : ReplayRecord) (a : ℕ) → Spent r a → (check_old r (r.rx_ssn - a)).0 ≢ accept
check_old-Spent_bit r a s = elim (dec_lt (r.rx_ssn - a) 32) [
  | yes p ↦ ground (arith, check_old_bit r (r.rx_ssn - a) p)
  | no p ↦ ground (arith, check_old_far r (r.rx_ssn - a))
]

-- The window that `check_new` stores has bit 0 set, and the bits of the old one moved up.
slid_bit :
    (w k j : ℕ)
    → j < 32
    → testbit w (j - k) ≡ true
    → k ≤ j
    → testbit (bit_or (if leb 32 k then 0 else shl32 w k) 1) j ≡ true
slid_bit w k j h b le =
    ground
      (arith, testbit-bit_or_pow (shl32 w k) 0 j, testbit-mod 32 (w * 2 ^ k) j, testbit-shift w k j)

check_new-Spent :
    (rplwdo : ℕ) (r : ReplayRecord) (ssn a : ℕ)
    → r.rx_ssn < ssn
    → Spent r a
    → Spent (check_new rplwdo r ssn (ssn - r.rx_ssn)).1 a
unfolding check_new
check_new-Spent rplwdo r ssn a h s = elim (dec_lt (ssn - a) 32) [
  | yes p ↦ ground (arith, slid_bit r.window (ssn - r.rx_ssn) (ssn - a), cancel)
  | no p ↦ ground arith
]
  where
    cancel : ssn - a - (ssn - r.rx_ssn) ≡ r.rx_ssn - a
    cancel = omega arith

check_new-accept :
    (rplwdo : ℕ) (r : ReplayRecord) (ssn k : ℕ)
    → (check_new rplwdo r ssn k).0 ≡ accept
    → Spent (check_new rplwdo r ssn k).1 ssn
unfolding check_new
check_new-accept rplwdo r ssn k e =
    ground (arith, testbit-bit_or_pow (if leb 32 k then 0 else shl32 r.window k) 0 (ssn - ssn))

-- For numbers below the limit the signed reading of the difference tells older from newer.
check_record_old :
    (now rplwdo : ℕ) (r : ReplayRecord) (ssn : ℕ)
    → r.rx_ssn < ssn_limit
    → ssn ≤ r.rx_ssn
    → check_record now rplwdo r ssn ≡ check_old (record r { time = now }) (r.rx_ssn - ssn)
unfolding check_record
check_record_old now rplwdo r ssn hr h = rw diff (ground arith)
  where
    diff : sub64 r.rx_ssn ssn ≡ r.rx_ssn - ssn
    diff = omega arith

check_record_new :
    (now rplwdo : ℕ) (r : ReplayRecord) (ssn : ℕ)
    → ssn < ssn_limit
    → r.rx_ssn < ssn
    → check_record now rplwdo r ssn
      ≡ check_new rplwdo (record r { time = now }) ssn (ssn - r.rx_ssn)
unfolding check_record
check_record_new now rplwdo r ssn h lt = rw diff (ground (arith, back))
  where
    diff : sub64 r.rx_ssn ssn ≡ 2 ^ 64 - (ssn - r.rx_ssn)
    diff = omega arith

    back : 2 ^ 64 - (2 ^ 64 - (ssn - r.rx_ssn)) ≡ ssn - r.rx_ssn
    back = omega arith

-- The verdict on an SSN, by its place relative to the window, in plain arithmetic.
unfoldable pub expected_verdict : ℕ → ReplayRecord → ℕ → Verdict
expected_verdict rplwdo r ssn =
    if ltb r.rx_ssn ssn
    then (if leb (ssn - r.rx_ssn) rplwdo then accept else reject)
    else if ltb (r.rx_ssn - ssn) 32
    then (if testbit r.window (r.rx_ssn - ssn) then reject else accept)
    else if r.rx_ssn - ssn == 32
    then undefined
    else reject

-- `oc_replay_check_client` on the record of the client, for SSNs below 2^63: an SSN above the
-- recorded one is accepted exactly if it is at most the replay window above it, one less than 32
-- below exactly if its bit is clear, one more than 32 below is rejected, and at a distance of
-- exactly 32 the code shifts by the width of the word, which is undefined.
pub check_record_verdict :
    (now rplwdo : ℕ) (r : ReplayRecord) (ssn : ℕ)
    → r.rx_ssn < ssn_limit
    → ssn < ssn_limit
    → (check_record now rplwdo r ssn).0 ≡ expected_verdict rplwdo r ssn
unfolding expected_verdict check_new
check_record_verdict now rplwdo r ssn hr hs = elim (dec_lt r.rx_ssn ssn) [
  | yes p ↦ rw (check_record_new now rplwdo r ssn hs p) (ground arith)
  | no p ↦ rw (check_record_old now rplwdo r ssn hr (omega arith)) (
      ground (
        arith,
        check_old_bit (record r { time = now }) (r.rx_ssn - ssn),
        check_old_far (record r { time = now }) (r.rx_ssn - ssn),
      ))
]

expected_undefined :
    (rplwdo : ℕ) (r : ReplayRecord) (ssn : ℕ)
    → expected_verdict rplwdo r ssn ≡ undefined
    → r.rx_ssn ≡ ssn + 32
unfolding expected_verdict
expected_undefined rplwdo r ssn e = ground (arith, e)

module _ (now rplwdo : ℕ) (r : ReplayRecord) (ssn : ℕ) (hr : r.rx_ssn < ssn_limit)
    (hs : ssn < ssn_limit) where
  -- Only an SSN exactly 32 below the recorded one has no defined verdict.
  pub check_record-undefined : (check_record now rplwdo r ssn).0 ≡ undefined → r.rx_ssn ≡ ssn + 32
  check_record-undefined e =
      expected_undefined rplwdo r ssn (sym (check_record_verdict now rplwdo r ssn hr hs) ∙ e)

  -- Whatever SSN is checked, the record forgets none that it knew.
  pub check_record-Spent : (a : ℕ) → Spent r a → Spent (check_record now rplwdo r ssn).1 a
  check_record-Spent a s = elim (dec_lt r.rx_ssn ssn) [
    | yes p ↦
        rw (check_record_new now rplwdo r ssn hs p)
          (check_new-Spent rplwdo (record r { time = now }) ssn a p s)
    | no p ↦
        rw (check_record_old now rplwdo r ssn hr (omega arith))
          (check_old-Spent (record r { time = now }) (r.rx_ssn - ssn) a s)
  ]

  -- An accepted SSN is known afterwards.
  pub check_record-accept :
      (check_record now rplwdo r ssn).0 ≡ accept → Spent (check_record now rplwdo r ssn).1 ssn
  check_record-accept e = elim (dec_lt r.rx_ssn ssn) [
    | yes p ↦
        let eq = check_record_new now rplwdo r ssn hs p in
        rw eq (check_new-accept rplwdo (record r { time = now }) ssn (ssn - r.rx_ssn) (rw eq at e))
    | no p ↦
        let eq = check_record_old now rplwdo r ssn hr (omega arith) in
        let back : r.rx_ssn - (r.rx_ssn - ssn) ≡ ssn = omega arith in
        rw eq (
          rw back at (
            check_old-accept (record r { time = now }) (r.rx_ssn - ssn) (omega arith) (rw eq at e)))
  ]

  -- An SSN that the record knows is not accepted.
  pub check_record-Spent_ssn : Spent r ssn → (check_record now rplwdo r ssn).0 ≢ accept
  check_record-Spent_ssn s =
      rw (check_record_old now rplwdo r ssn hr s.0)
        (check_old-Spent_bit (record r { time = now }) ssn s)

  pub check_record_limit : (check_record now rplwdo r ssn).1.rx_ssn < ssn_limit
  unfolding check_record check_old check_new
  check_record_limit = ground arith

-- A check leaves the client's identity alone.
pub check_record_key :
    (now rplwdo : ℕ) (r : ReplayRecord) (ssn : ℕ)
    → let r' = (check_record now rplwdo r ssn).1 in
      (r'.rx_kid ≡ r.rx_kid) × (r'.rx_kid_ctx ≡ r.rx_kid_ctx) × (r'.in_use ≡ r.in_use)
unfolding check_record check_old check_new
check_record_key now rplwdo r ssn = ground arith
