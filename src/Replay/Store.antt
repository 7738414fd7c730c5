-- ===== src/Replay/Store.antt =====
-- The table of replay records: `oc_replay_check_client` over a sequence of messages.
use knx_iot_stack.Prelude.{
  ℕ, zero, suc, ◌+◌, ◌<◌, ◌≡◌, ◌≢◌, refl, arith, Bool, false, ◌&&◌, ◌⊎◌, none, some, List, [], ◌∷◌,
  ℕ_discrete, get_elem?, set, find_index-set, find_index-get_elem?, get_elem?-set_self,
  get_elem?-set_ne, get_elem?-lt, Option-cases, some_inj, inl, inr, ◌∙◌, sym, ap, subst,
}
use knx_iot_stack.Replay.{
  ReplayRecord, Verdict, accept, reject, undefined, Env, matches, get_record, check_record,
  check_client,
}
use knx_iot_stack.Replay.Window.{
  ssn_limit, Spent, check_record-Spent, check_record-accept, check_record-undefined,
  check_record-Spent_ssn, check_record_limit, check_record_key,
}

-- One call of `oc_replay_check_client`.
pub record Check : Type 0 where
  pub env : Env
  pub ssn : ℕ
  pub kid : List ℕ
  pub kid_ctx : List ℕ
  pub is_mcast : Bool

abbrev pub check : List ReplayRecord → Check → Verdict × List ReplayRecord
check recs c = check_client c.env recs c.ssn c.kid c.kid_ctx c.is_mcast

pub run : List ReplayRecord → List Check → List ReplayRecord
run recs [] = recs
run recs (c ∷ cs) = run (check recs c).1 cs

-- All recorded SSNs are below the limit.
abbrev pub AllLow : List ReplayRecord → Type 0
AllLow [] = Unit {0}
AllLow (r ∷ rs) = (r.rx_ssn < ssn_limit) × AllLow rs

AllLow-get_elem? :
    (recs : List ReplayRecord) (i : ℕ) {r : ReplayRecord}
    → AllLow recs
    → get_elem? recs i ≡ some r
    → r.rx_ssn < ssn_limit
AllLow-get_elem? [] i h e = absurd (cc)
AllLow-get_elem? (x ∷ xs) zero h e = ground arith
AllLow-get_elem? (x ∷ xs) (suc i) h e = AllLow-get_elem? xs i h.1 e

AllLow-set :
    (recs : List ReplayRecord) (i : ℕ) (r : ReplayRecord)
    → AllLow recs
    → r.rx_ssn < ssn_limit
    → AllLow (set recs i r)
AllLow-set [] i r h l = tt
AllLow-set (x ∷ xs) zero r h l = (l, h.1)
AllLow-set (x ∷ xs) (suc i) r h l = (h.0, AllLow-set xs i r h.1 l)

-- The calls that do not create a record for an unknown client: unicast ones, and all if the build
-- does not trust the first multicast message.
abbrev pub IsQuiet : Check → Type 0
IsQuiet c = (c.env.trust_first_mcast && c.is_mcast ≡ false) × (c.ssn < ssn_limit)

abbrev pub AllQuiet : List Check → Type 0
AllQuiet [] = Unit {0}
AllQuiet (c ∷ cs) = IsQuiet c × AllQuiet cs

-- The table knows that the client `kid`, `ctx` has sent the SSN `a`.
pub record SpentBy (recs : List ReplayRecord) (kid ctx : List ℕ) (a : ℕ) : Type 0 where
  pub index : ℕ
  pub rec : ReplayRecord
  pub found : get_record recs kid ctx ≡ some index
  pub stored : get_elem? recs index ≡ some rec
  pub spent : Spent rec a

matches_key :
    (kid ctx : List ℕ) (r r' : ReplayRecord)
    → (r'.rx_kid ≡ r.rx_kid) × (r'.rx_kid_ctx ≡ r.rx_kid_ctx) × (r'.in_use ≡ r.in_use)
    → matches kid ctx r' ≡ matches kid ctx r
unfolding matches
matches_key kid ctx r r' (a, b, c) = rw (a, b, c)

pub get_record-set :
    (recs : List ReplayRecord) (kid ctx : List ℕ) (i : ℕ) (r r' : ReplayRecord)
    → get_elem? recs i ≡ some r
    → (r'.rx_kid ≡ r.rx_kid) × (r'.rx_kid_ctx ≡ r.rx_kid_ctx) × (r'.in_use ≡ r.in_use)
    → get_record (set recs i r') kid ctx ≡ get_record recs kid ctx
unfolding get_record
get_record-set recs kid ctx i r r' e k =
    rw (find_index-set (matches kid ctx) recs i r' e (matches_key kid ctx r r' k))

is_stored :
    (recs : List ReplayRecord) (kid ctx : List ℕ) (i : ℕ)
    → get_record recs kid ctx ≡ some i
    → get_elem? recs i ≢ none
unfolding get_record
is_stored recs kid ctx i e f =
    let (r, at, m) = find_index-get_elem? (matches kid ctx) recs i (ground (arith, e)) in
    absurd (none_some (sym f ∙ at))
  where
    none_some : {r : ReplayRecord} → none ≡ some r → ⊥
    none_some h = absurd (cc)

-- What a quiet check does: nothing but an update of one record by `check_record`.
pub check_cases {ℓ} :
    (P : Verdict × List ReplayRecord → Type ℓ) (recs : List ReplayRecord) (c : Check)
    → IsQuiet c
    → P (reject, recs)
    → ((i : ℕ) (r : ReplayRecord)
        → get_record recs c.kid c.kid_ctx ≡ some i
        → get_elem? recs i ≡ some r
        → P (
          (check_record c.env.now c.env.rplwdo r c.ssn).0,
          set recs i (check_record c.env.now c.env.rplwdo r c.ssn).1,
        ))
    → P (check recs c)
unfolding check_client
check_cases P recs c q none_found step = elim (Option-cases (get_record recs c.kid c.kid_ctx)) [
  | inl e ↦ rw (e, check_client, q.0) none_found
  | inr (i, e) ↦ elim (Option-cases (get_elem? recs i)) [
    | inl f ↦ absurd (is_stored recs c.kid c.kid_ctx i e f)
    | inr (r, f) ↦ rw (e, check_client, f) (step i r e f)
  ]
]

-- Every check keeps the recorded SSNs below the limit.
check-AllLow :
    (recs : List ReplayRecord) (c : Check) → IsQuiet c → AllLow recs → AllLow (check recs c).1
check-AllLow recs c q h =
    check_cases (λ out. AllLow out.1) recs c q h
      λ i r e f.
        AllLow-set recs i _ h
          (check_record_limit c.env.now c.env.rplwdo r c.ssn (AllLow-get_elem? recs i h f) q.1)

-- A check of any client leaves what the table knows of the client `kid`, `ctx`.
check-SpentBy :
    (recs : List ReplayRecord) (c : Check) (kid ctx : List ℕ) (a : ℕ)
    → IsQuiet c
    → AllLow recs
    → SpentBy recs kid ctx a
    → SpentBy (check recs c).1 kid ctx a
check-SpentBy recs c kid ctx a q h s =
    check_cases (λ out. SpentBy out.1 kid ctx a) recs c q s
      λ i r e f.
        let r' = (check_record c.env.now c.env.rplwdo r c.ssn).1 in
        let key = check_record_key c.env.now c.env.rplwdo r c.ssn in
        let kept : get_record (set recs i r') kid ctx ≡ some s.index =
          get_record-set recs kid ctx i r r' f key ∙ s.found in
        elim (ℕ_discrete i s.index) [
          | yes same ↦
              let is_r : s.rec ≡ r = some_inj (sym s.stored ∙ ap (get_elem? recs) (sym same) ∙ f) in
              record {
                index = s.index;
                rec = r';
                found = kept;
                stored =
                    subst (λ j. get_elem? (set recs i r') j ≡ some r') same
                      (get_elem?-set_self recs i r' (get_elem?-lt recs i f));
                spent =
                    check_record-Spent c.env.now c.env.rplwdo r c.ssn (AllLow-get_elem? recs i h f)
                      q.1 a (subst (λ x. Spent x a) is_r s.spent);
              }
          | no other ↦ record {
            index = s.index;
            rec = s.rec;
            found = kept;
            stored = get_elem?-set_ne recs r' other ∙ s.stored;
            spent = s.spent;
          }
        ]

run-SpentBy :
    (recs : List ReplayRecord) (cs : List Check) (kid ctx : List ℕ) (a : ℕ)
    → AllQuiet cs
    → AllLow recs
    → SpentBy recs kid ctx a
    → SpentBy (run recs cs) kid ctx a × AllLow (run recs cs)
unfolding run
run-SpentBy recs [] kid ctx a q h s = (s, h)
run-SpentBy recs (c ∷ cs) kid ctx a q h s =
    run-SpentBy (check recs c).1 cs kid ctx a q.1 (check-AllLow recs c q.0 h)
      (check-SpentBy recs c kid ctx a q.0 h s)

-- A check that accepts makes the SSN known.
check_accept-SpentBy :
    (recs : List ReplayRecord) (c : Check)
    → IsQuiet c
    → AllLow recs
    → (check recs c).0 ≡ accept
    → SpentBy (check recs c).1 c.kid c.kid_ctx c.ssn
check_accept-SpentBy recs c q h =
    check_cases (λ out. out.0 ≡ accept → SpentBy out.1 c.kid c.kid_ctx c.ssn) recs c q
      (λ e. absurd (cc))
      λ i r e f acc.
        let r' = (check_record c.env.now c.env.rplwdo r c.ssn).1 in
        record {
          index = i;
          rec = r';
          found =
              get_record-set recs c.kid c.kid_ctx i r r' f
                (check_record_key c.env.now c.env.rplwdo r c.ssn)
              ∙ e;
          stored = get_elem?-set_self recs i r' (get_elem?-lt recs i f);
          spent =
              check_record-accept c.env.now c.env.rplwdo r c.ssn (AllLow-get_elem? recs i h f) q.1
                acc;
        }

-- A check rejects, or, at an SSN exactly 32 below the recorded one, has no defined verdict.
abbrev pub Refused : List ReplayRecord → Check → Type 0
Refused recs c =
    ((check recs c).0 ≡ reject)
    ⊎ (((check recs c).0 ≡ undefined)
        × (i : ℕ) × (r : ReplayRecord) × (get_record recs c.kid c.kid_ctx ≡ some i)
        × (get_elem? recs i ≡ some r)
        × (r.rx_ssn ≡ c.ssn + 32))

-- No check of the run is without a defined verdict.
unfoldable pub AllDefined : List ReplayRecord → List Check → Type 0
AllDefined recs [] = Unit {0}
AllDefined recs (c ∷ cs) = ((check recs c).0 ≢ undefined) × AllDefined (check recs c).1 cs

verdict_cases : (v : Verdict) → v ≢ accept → (v ≡ reject) ⊎ (v ≡ undefined)
verdict_cases accept n = absurd (n refl)
verdict_cases reject n = inl refl
verdict_cases undefined n = inr refl

-- A known SSN is refused.
check_spent :
    (recs : List ReplayRecord) (c : Check)
    → IsQuiet c
    → AllLow recs
    → SpentBy recs c.kid c.kid_ctx c.ssn
    → Refused recs c
check_spent recs c q h s =
    check_cases
      (λ out.
        (out.0 ≡ reject)
        ⊎ ((out.0 ≡ undefined)
            × (i : ℕ) × (r : ReplayRecord) × (get_record recs c.kid c.kid_ctx ≡ some i)
            × (get_elem? recs i ≡ some r)
            × (r.rx_ssn ≡ c.ssn + 32)))
      recs c q (inl refl)
      λ i r e f.
        let same : s.index ≡ i = some_inj (sym s.found ∙ e) in
        let is_r : s.rec ≡ r = some_inj (sym s.stored ∙ ap (get_elem? recs) same ∙ f) in
        let low = AllLow-get_elem? recs i h f in
        elim (verdict_cases (check_record c.env.now c.env.rplwdo r c.ssn).0 (
          check_record-Spent_ssn c.env.now c.env.rplwdo r c.ssn low q.1
            (subst (λ x. Spent x c.ssn) is_r s.spent))) [
              | inl t ↦ inl t
              | inr u ↦
                  inr
                    (u, i, r, e, f, check_record-undefined c.env.now c.env.rplwdo r c.ssn low q.1 u)
            ]

-- No replay: when a check has accepted an SSN of a client, then whatever checks of whatever clients
-- follow, at any times and under any replay windows, a later check of the same client with that SSN
-- rejects it, or the SSN is exactly 32 below the recorded one, where the code has no defined verdict: it
-- shifts by the width of the word, and may accept. None of the checks creates a record for an unknown
-- client, no record is added or freed between them, all SSNs are below 2^63, and none of the checks in
-- between is without a defined verdict.
pub no_replay :
    (recs : List ReplayRecord) (first : Check) (between : List Check) (again : Check)
    → AllLow recs
    → IsQuiet first
    → AllQuiet between
    → AllDefined (check recs first).1 between
    → IsQuiet again
    → again.kid ≡ first.kid
    → again.kid_ctx ≡ first.kid_ctx
    → again.ssn ≡ first.ssn
    → (check recs first).0 ≡ accept
    → Refused (run (check recs first).1 between) again
no_replay recs first between again h q qs defined q' e₁ e₂ e₃ acc =
    let s = check_accept-SpentBy recs first q h acc in
    let (s', h') =
      run-SpentBy _ between first.kid first.kid_ctx first.ssn qs (check-AllLow recs first q h) s in
    check_spent _ again q' h' (rw (e₁, e₂, e₃) s')
