-- ===== src/Coap/Transactions/Table.antt =====
-- The table of open transactions: what is added, found and cleared.
use knx_iot_stack.Prelude.{
  ℕ, zero, suc, ◌≡◌, refl, arith, ◌∙◌, sym, ap, none, some, Bool, true, List, [], ◌∷◌, ◌++◌,
  append_assoc, append-nil, take, bytes_eq_refl,
}
use knx_iot_stack.Prelude.Keyed as Keyed
use knx_iot_stack.Prelude.Keyed.{remove_at}
use knx_iot_stack.Endpoint.{Endpoint}
use knx_iot_stack.Coap.Transactions.{
  Transaction, State, Call, unref, remove, new_transaction, clear_transaction, get_transaction,
  get_transaction_by_mid, get_transaction_by_token, free_all, free_all_transactions,
}

-- No transaction of the list has the address.
abbrev pub Fresh : ℕ → List Transaction → Type 0
Fresh address ts = Keyed.Fresh (λ t. t.address) address ts

-- The transactions have different addresses.
abbrev pub Distinct : List Transaction → Type 0
Distinct ts = Keyed.Distinct (λ t. t.address) ts

get_transaction-snoc :
    (test : Transaction → Bool) (ts : List Transaction) (t : Transaction)
    → get_transaction test ts ≡ none
    → test t ≡ true
    → get_transaction test (ts ++ t ∷ []) ≡ some t
unfolding get_transaction
get_transaction-snoc test [] t e h = ground arith
get_transaction-snoc test (x ∷ xs) t e h = ground (arith, get_transaction-snoc test xs t)

take-take {ℓ} : {A : Type ℓ} (n : ℕ) (xs : List A) → take n (take n xs) ≡ take n xs
take-take zero xs = refl
take-take (suc n) [] = refl
take-take (suc n) (x ∷ xs) = rw (take-take n xs)

-- A new transaction is found by its message identifier and by its token, unless an older one with the
-- same identifier or token stands before it.
pub new_transaction-get :
    (s : State) (address message mid : ℕ) (token : List ℕ) (token_len : ℕ) (endpoint : Endpoint)
    → get_transaction_by_mid s mid ≡ none
    → get_transaction_by_token s token token_len ≡ none
    → let (t, s') = new_transaction s (some address, some message) mid token token_len endpoint in
      (get_transaction_by_mid s' mid ≡ t) × (get_transaction_by_token s' token token_len ≡ t)
unfolding new_transaction get_transaction_by_mid get_transaction_by_token
new_transaction-get s address message mid token token_len endpoint h k = (
  get_transaction-snoc _ s.transactions _ h (ground arith),
  get_transaction-snoc _ s.transactions _ k
      (ground (arith, take-take token_len token, bytes_eq_refl (take token_len token))),
)

remove-snoc :
    (ts : List Transaction) (t : Transaction)
    → Fresh t.address ts
    → remove t.address (ts ++ t ∷ []) ≡ ts
unfolding remove remove_at
remove-snoc [] t f = ground arith
remove-snoc (x ∷ xs) t f = ground (arith, remove-snoc xs t f.1)

-- Clearing a transaction just made restores the table, and gives back its message.
pub clear-new_transaction :
    (s : State) (address message mid : ℕ) (token : List ℕ) (token_len : ℕ) (endpoint : Endpoint)
    {t : Transaction} {s' : State}
    → Fresh address s.transactions
    → new_transaction s (some address, some message) mid token token_len endpoint ≡ (some t, s')
    → clear_transaction s' t ≡ record s { calls = s.calls ++ unref message ∷ [] }
unfolding new_transaction clear_transaction
clear-new_transaction s address message mid token token_len endpoint {t} {s'} f e =
    ground (arith, remove-snoc s.transactions t)

-- The calls that give back the messages of a list of transactions.
unfoldable pub unrefs : List Transaction → List Call
unrefs [] = []
unrefs (t ∷ ts) = unref t.message ∷ unrefs ts

remove-head : (t : Transaction) (ts : List Transaction) → remove t.address (t ∷ ts) ≡ ts
unfolding remove remove_at
remove-head t ts = ground arith

free_all-unrefs :
    (ts : List Transaction) (cs : List Call)
    → free_all ts (record { transactions = ts; calls = cs })
      ≡ record { transactions = []; calls = cs ++ unrefs ts }
unfolding free_all clear_transaction unrefs
free_all-unrefs [] cs = ap (λ c. record { transactions = []; calls = c }) (sym (append-nil cs))
free_all-unrefs (t ∷ ts) cs = rw (remove-head t ts) (
    free_all-unrefs ts (cs ++ unref t.message ∷ [])
    ∙ ap (λ c. record { transactions = []; calls = c })
        (append_assoc cs (unref t.message ∷ []) (unrefs ts)))

-- Freeing all transactions empties the table and gives back the message of each, in order.
pub free_all_transactions-unrefs :
    (s : State)
    → free_all_transactions s
      ≡ record { transactions = []; calls = s.calls ++ unrefs s.transactions }
unfolding free_all_transactions
free_all_transactions-unrefs s = free_all-unrefs s.transactions s.calls
