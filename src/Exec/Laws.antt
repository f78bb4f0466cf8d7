-- ===== src/Exec/Laws.antt =====
-- Rules for what holds after a chain of steps, one for each kind of first step. `Q` speaks of the
-- result and the state that the chain ends with.
use findex_cloud.Base.{◌≡◌, refl, String}
use findex_cloud.Errors.{Error, Result, ok, err, panicked, Outcome, done, failed, or_else}
use findex_cloud.Exec.{Exec, Call, lift, attempt, continue, ◌>>=◌}

module _ {A S : Type 0} where
  -- A call of a service with `?` at the end of a chain.
  pub call_rule :
      (g : String → Error) (c : Call S A) (s : S) (Q : Result A × S → Type 0)
      → ((a : A) → (c s).0 ≡ done a → Q (ok a, (c s).1))
      → ((text : String) → (c s).0 ≡ failed text → Q (err (g text), (c s).1))
      → Q (attempt g c s)
  call_rule g c s Q on_done on_failed = go (c s).0 refl
    where
      go : (o : Outcome A) → (c s).0 ≡ o → Q (or_else g o, (c s).1)
      go (done a) e = on_done a e
      go (failed text) e = on_failed text e

module _ {A B S : Type 0} where
  -- Any step.
  pub bind_rule :
      (m : Exec S A) (f : A → Exec S B) (s : S) (Q : Result B × S → Type 0)
      → ((a : A) → (m s).0 ≡ ok a → Q (f a (m s).1))
      → ((e : Error) → (m s).0 ≡ err e → Q (err e, (m s).1))
      → ((m s).0 ≡ panicked → Q (panicked, (m s).1))
      → Q ((m >>= f) s)
  unfolding ◌>>=◌
  bind_rule m f s Q on_ok on_err on_panic = go (m s).0 refl
    where
      go : (r : Result A) → (m s).0 ≡ r → Q (continue r f (m s).1)
      go (ok a) e = on_ok a e
      go (err x) e = on_err x e
      go panicked e = on_panic e

  -- Any step, through a property of its end.
  pub post_rule :
      (m : Exec S A) (f : A → Exec S B) (s : S) (P : Result A × S → Type 0)
      (Q : Result B × S → Type 0)
      → P (m s)
      → ((a : A) (s' : S) → P (ok a, s') → Q (f a s'))
      → ((e : Error) (s' : S) → P (err e, s') → Q (err e, s'))
      → ((s' : S) → P (panicked, s') → Q (panicked, s'))
      → Q ((m >>= f) s)
  unfolding ◌>>=◌
  post_rule m f s P Q first on_ok on_err on_panic = go (m s).0 (m s).1 first
    where
      go : (r : Result A) (s' : S) → P (r, s') → Q (continue r f s')
      go (ok a) s' p = on_ok a s' p
      go (err x) s' p = on_err x s' p
      go panicked s' p = on_panic s' p

  -- A call of a service with `?`.
  pub attempt_rule :
      (g : String → Error) (c : Call S A) (f : A → Exec S B) (s : S) (Q : Result B × S → Type 0)
      → ((a : A) → (c s).0 ≡ done a → Q (f a (c s).1))
      → ((text : String) → (c s).0 ≡ failed text → Q (err (g text), (c s).1))
      → Q ((attempt g c >>= f) s)
  unfolding ◌>>=◌
  attempt_rule g c f s Q on_done on_failed = go (c s).0 refl
    where
      go : (o : Outcome A) → (c s).0 ≡ o → Q (continue (or_else g o) f (c s).1)
      go (done a) e = on_done a e
      go (failed text) e = on_failed text e

  -- A pure step with `?`.
  pub lift_rule :
      (r : Result A) (f : A → Exec S B) (s : S) (Q : Result B × S → Type 0)
      → ((a : A) → r ≡ ok a → Q (f a s))
      → ((e : Error) → r ≡ err e → Q (err e, s))
      → (r ≡ panicked → Q (panicked, s))
      → Q ((lift r >>= f) s)
  unfolding ◌>>=◌
  lift_rule (ok a) f s Q on_ok on_err on_panic = on_ok a refl
  lift_rule (err x) f s Q on_ok on_err on_panic = on_err x refl
  lift_rule panicked f s Q on_ok on_err on_panic = on_panic refl

  -- An invariant that the first step and all later ones keep, whatever the result.
  pub keep_rule :
      (m : Exec S A) (f : A → Exec S B) (s : S) (P : S → Type 0)
      → P (m s).1
      → ((a : A) → P (m s).1 → P (f a (m s).1).1)
      → P ((m >>= f) s).1
  keep_rule m f s P first later =
      bind_rule m f s (λ p. P p.1) (λ a _. later a first) (λ _ _. first) (λ _. first)
