-- ===== src/Api/Topics.antt =====
-- The topics of a client and the list of clients of src/api.ts.
use mathlib.Core.Path.{subst}
use proof_of_authority_block.Common.{
  ℕ, ◌≡◌, refl, sym, ap, ◌∙◌, inl, inr, true, false, not, List, [], ◌∷◌, ◌++◌, map, some, arith,
  Bool-cases, Bool, filter, any, ◌==◌, any-append,
}
use proof_of_authority_block.Common.Sort.{Elem, here, there}
use proof_of_authority_block.Api.{
  Topic, status, blocks, pending, peers, is_topic, Client, find_client, add_topics, delete_topics,
  with_topics,
}

is_topic_self : (t : Topic) → is_topic t t ≡ true
is_topic_self status = refl
is_topic_self blocks = refl
is_topic_self pending = refl
is_topic_self peers = refl

module _ {ℓ} {A : Type ℓ} where
  pub Elem-filter :
      (p : A → Bool) (x : A) (xs : List A) → Elem x xs → p x ≡ true → Elem x (filter p xs)
  Elem-filter p x [] m h = elim m [ ]
  Elem-filter p x (y ∷ ys) (here e) h = let kept : p y ≡ true = ap p (sym e) ∙ h in rw kept (here e)
  Elem-filter p x (y ∷ ys) (there m) h = elim (Bool-cases (p y)) [
    | inl kept ↦ rw kept (there (Elem-filter p x ys m h))
    | inr dropped ↦ rw dropped (Elem-filter p x ys m h)
  ]

  any-filter-not : (p : A → Bool) (xs : List A) → any p (filter (λ x. not (p x)) xs) ≡ false
  any-filter-not p [] = refl
  any-filter-not p (x ∷ xs) = ground (arith, any-filter-not p xs)

  any-filter-false : (p q : A → Bool) (xs : List A) → any p xs ≡ false → any p (filter q xs) ≡ false
  any-filter-false p q [] h = refl
  any-filter-false p q (x ∷ xs) h = ground (arith, any-filter-false p q xs (ground arith))

pub Elem-map {ℓ κ} :
    {A : Type ℓ} {B : Type κ} (f : A → B) (x : A) (xs : List A) → Elem x xs → Elem (f x) (map f xs)
Elem-map f x [] m = elim m [ ]
Elem-map f x (y ∷ ys) (here e) = here (ap f e)
Elem-map f x (y ∷ ys) (there m) = there (Elem-map f x ys m)

-- The set of a client after `subscribe` and after `unsubscribe`.
add_topics_old :
    (t : Topic) (ts set : List Topic)
    → any (is_topic t) set ≡ true
    → any (is_topic t) (add_topics ts set) ≡ true
add_topics_old t [] set h = h
add_topics_old t (u ∷ us) set h = elim (Bool-cases (any (is_topic u) set)) [
  | inl there_already ↦ rw (add_topics, there_already) (add_topics_old t us set h)
  | inr new ↦
      rw (add_topics, new)
        (add_topics_old t us (set ++ (u ∷ []))
          (ground (arith, any-append (is_topic t) set (u ∷ []))))
]

pub add_topics_new :
    (t : Topic) (ts set : List Topic) → Elem t ts → any (is_topic t) (add_topics ts set) ≡ true
add_topics_new t [] set m = elim m [ ]
add_topics_new t (u ∷ us) set (here e) =
    let same : is_topic t u ≡ true =
      subst (λ (v : Topic). is_topic t v ≡ true) e (is_topic_self t) in
    elim (Bool-cases (any (is_topic u) set)) [
      | inl there_already ↦
          rw (add_topics, there_already)
            (add_topics_old t us set
              (subst (λ (v : Topic). any (is_topic v) set ≡ true) (sym e) there_already))
      | inr new ↦
          rw (add_topics, new)
            (add_topics_old t us (set ++ (u ∷ []))
              (ground (arith, any-append (is_topic t) set (u ∷ []))))
    ]
add_topics_new t (u ∷ us) set (there m) = add_topics_new t us _ m

delete_topics_none :
    (t : Topic) (ts set : List Topic)
    → any (is_topic t) set ≡ false
    → any (is_topic t) (delete_topics ts set) ≡ false
delete_topics_none t [] set h = h
delete_topics_none t (u ∷ us) set h =
    delete_topics_none t us (filter (λ v. not (is_topic u v)) set)
      (any-filter-false (is_topic t) (λ v. not (is_topic u v)) set h)

pub delete_topics_lem :
    (t : Topic) (ts set : List Topic) → Elem t ts → any (is_topic t) (delete_topics ts set) ≡ false
delete_topics_lem t [] set m = elim m [ ]
delete_topics_lem t (u ∷ us) set (here e) =
    delete_topics_none t us (filter (λ v. not (is_topic u v)) set) (
      subst (λ (w : Topic). any (is_topic w) (filter (λ v. not (is_topic u v)) set) ≡ false) (sym e)
        (any-filter-not (is_topic u) set))
delete_topics_lem t (u ∷ us) set (there m) = delete_topics_lem t us _ m

pub find-with_topics :
    (id : ℕ) (set : List Topic) (ks : List Client) (k : Client)
    → find_client id ks ≡ some k
    → find_client id (with_topics id set ks) ≡ some (record k { topics = set })
find-with_topics id set [] k h = absurd (ground arith)
find-with_topics id set (j ∷ js) k h = ground (arith, find-with_topics id set js k)

pub find_client-Elem :
    (id : ℕ) (ks : List Client) (k : Client) → find_client id ks ≡ some k → Elem k ks × (k.id ≡ id)
find_client-Elem id [] k h = absurd (ground arith)
find_client-Elem id (j ∷ js) k h = elim (Bool-cases (j.id == id)) [
  | inl found ↦ let same : j ≡ k = ground arith in (here (sym same), ground arith)
  | inr other ↦ let (m, e) = find_client-Elem id js k (ground arith) in (there m, e)
]
