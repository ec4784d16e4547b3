-- ===== src/State/Ledger.antt =====
-- An abstract ledger for `applyAll` of src/state.ts: it knows balances and nonces and nothing of
-- Maps, copies or write order.
use mathlib.Core.Path.{fun_ext, subst}
use proof_of_authority_block.Common.{
  ℕ, ◌+◌, ◌-◌, ◌≤◌, ◌≡◌, refl, ◌≢◌, String, List, [], ◌∷◌, arith, ap, eq_iff, ok, ◌>>=◌, >>=-eq-ok,
  sym, ◌∙◌, Result, inl, inr, ◌↔◌,
}
use proof_of_authority_block.Transaction.{Transaction}
use proof_of_authority_block.State.Step.{
  WorldState, StateError, get_balance, get_nonce, transfer, apply_one, apply_each, apply_all,
}
use proof_of_authority_block.State.Apply.{
  apply_all_atomic, spends, gains, sends, transfer-balance, transfer-nonce, apply_one_iff,
  apply_each_accounts,
}

pub record Ledger : Type 0 where
  pub balance : String → ℕ
  pub nonce : String → ℕ

-- What the node can read of a state.
abbrev pub view : WorldState → Ledger
view s = record { balance = get_balance s; nonce = get_nonce s }

-- The ledger after one payment.
abbrev pub pay : Ledger → Transaction → Ledger
pay l tx = record {
  balance = λ a. l.balance a + gains a tx - spends a tx;
  nonce = λ a. l.nonce a + sends a tx;
}

-- A run of payments, each made in turn by an account that can pay and with its next nonce.
pub data Run : Ledger → List Transaction → Ledger → Type 0 where
  done : (l : Ledger) → Run l [] l
  step :
      (l : Ledger) (tx : Transaction) (txs : List Transaction) (l' : Ledger)
      → tx.nonce ≡ l.nonce tx.from
      → tx.amount ≤ l.balance tx.from
      → Run (pay l tx) txs l'
      → Run l (tx ∷ txs) l'

view-transfer :
    (s : WorldState) (tx : Transaction)
    → tx.amount ≤ get_balance s tx.from
    → view (transfer s tx) ≡ pay (view s) tx
view-transfer s tx h = λ i. record {
  balance = fun_ext {f = get_balance (transfer s tx)} {g = (pay (view s) tx).balance} balances i;
  nonce =
      fun_ext {f = get_nonce (transfer s tx)} {g = (pay (view s) tx).nonce} (transfer-nonce s tx) i;
}
  where
    balances : (a : String) → get_balance (transfer s tx) a ≡ (pay (view s) tx).balance a
    balances a = omega (arith, transfer-balance s tx a h)

pub Run-apply_each :
    (s s' : WorldState) (txs : List Transaction)
    → apply_each s txs ≡ ok s'
    → Run (view s) txs (view s')
unfolding apply_each
Run-apply_each s s' [] h =
    let e : s ≡ s' = cc in subst (λ u. Run (view s) [] (view u)) e (done (view s))
Run-apply_each s s' (tx ∷ txs) h =
    let (t, one, rest) = >>=-eq-ok (apply_one s tx) (λ next. apply_each next txs) h in
    let (turn, pays, moved) = (apply_one_iff s t tx).0 one in
    let paid : view t ≡ pay (view s) tx = ap view moved ∙ view-transfer s tx pays in
    step (view s) tx txs (view s') turn pays
      (subst (λ l. Run l txs (view s')) paid (Run-apply_each t s' txs rest))

apply_each_of_Run :
    {l l' : Ledger} {txs : List Transaction}
    → Run l txs l'
    → (s : WorldState) → view s ≡ l
    → (s' : WorldState) × (apply_each s txs ≡ ok s') × (view s' ≡ l')
unfolding apply_each
apply_each_of_Run (done l) s e = (s, refl, e)
apply_each_of_Run (step l tx txs l' turn pays rest) s e =
    let turn' : tx.nonce ≡ get_nonce s tx.from =
      subst (λ (k : Ledger). tx.nonce ≡ k.nonce tx.from) (sym e) turn in
    let pays' : tx.amount ≤ get_balance s tx.from =
      subst (λ (k : Ledger). tx.amount ≤ k.balance tx.from) (sym e) pays in
    let one : apply_one s tx ≡ ok (transfer s tx) =
      (apply_one_iff s (transfer s tx) tx).1 (turn', pays', refl) in
    let paid : view (transfer s tx) ≡ pay l tx = view-transfer s tx pays' ∙ ap (λ k. pay k tx) e in
    let (s', each, seen) = apply_each_of_Run rest (transfer s tx) paid in
    (s', rw (one, ◌>>=◌) each, seen)

-- `applyAll` succeeds on a list of transactions and leads to a state that reads as the ledger `l'`
-- exactly if the abstract ledger can run the payments, one after the other, from what the state
-- reads as to `l'`.
pub apply_all_refines :
    (s : WorldState) (txs : List Transaction) (l' : Ledger)
    → (Run (view s) txs l') ↔ (((apply_all s txs).1 ≡ ok tt) × (view (apply_all s txs).0 ≡ l'))
apply_all_refines s txs l' = elim (apply_all_atomic s txs) [
  | inl (s', each, all) ↦ (
    λ run.
        let (u, each', seen) = apply_each_of_Run run s refl in
        let same : u ≡ s' = cc in rw all (refl, subst (λ (w : WorldState). view w ≡ l') same seen),
    λ (_, seen).
        subst (λ (k : Ledger). Run (view s) txs k)
          (subst (λ (r : WorldState × Result StateError (Unit {0})). view r.0 ≡ l') all seen)
          (Run-apply_each s s' txs each),
  )
  | inr (e, each, all) ↦ (
    λ run. let (u, each', seen) = apply_each_of_Run run s refl in absurd (ground arith),
    λ (done', _). absurd (ground arith),
  )
]

-- Once a list of transactions has been applied, its first transaction cannot be applied to the
-- state that resulted.
pub apply_each_no_replay :
    (s s' : WorldState) (tx : Transaction) (txs : List Transaction)
    → apply_each s (tx ∷ txs) ≡ ok s'
    → (u : WorldState) → apply_one s' tx ≢ ok u
unfolding apply_each
apply_each_no_replay s s' tx txs h u again =
    let (t, one, _) = >>=-eq-ok (apply_one s tx) (λ next. apply_each next txs) h in
    ground (
      arith,
      eq_iff tx.from tx.from,
      (apply_one_iff s t tx).0 one,
      apply_each_accounts s s' (tx ∷ txs) h tx.from,
      (apply_one_iff s' u tx).0 again,
    )
