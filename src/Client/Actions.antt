-- ===== src/Client/Actions.antt =====
-- How actions of the client run one after the other.
use component_cli.Prelude.{String, ◌≡◌, refl, ap, inl, inr, arith}
use component_cli.Prelude.Result.{Error, ok, err, Result-cases}
use component_cli.Oci.{Formats}
use component_cli.Client.{Caches, Remotes, State, Action, explain, ◌>>=◌}

module _ {f : Formats} {c : Caches f} {r : Remotes f} {A : Type 0} where
  module _ {B : Type 0} (m : Action f c r A) (k : A → Action f c r B) (s : State f c r) where
    pub >>=-ran : (a : A) → (m s).0 ≡ ok a → (m >>= k) s ≡ k a (m s).1
    >>=-ran a e = rw (◌>>=◌, e) refl

    pub >>=-failed : (e : Error) → (m s).0 ≡ err e → (m >>= k) s ≡ (err e, (m s).1)
    >>=-failed e h = rw (◌>>=◌, h) refl

    -- What a successful run did.
    pub >>=-ok :
        (b : B)
        → ((m >>= k) s).0 ≡ ok b
        → (a : A) × ((m s).0 ≡ ok a)
          × ((k a (m s).1).0 ≡ ok b)
          × (((m >>= k) s).1 ≡ (k a (m s).1).1)
    >>=-ok b h = elim (Result-cases (m s).0) [
      | inl (a, e) ↦ (a, e, rw (>>=-ran a e) at h, ap (λ x. x.1) (>>=-ran a e))
      | inr (failure, e) ↦ absurd (ground (arith, ap (λ x. x.0) (>>=-failed failure e)))
    ]

  module _ (text : String) (m : Action f c r A) (s : State f c r) where
    pub explain-state : (explain text m s).1 ≡ (m s).1
    explain-state = elim (Result-cases (m s).0) [
      | inl (a, e) ↦ rw (explain, e) refl
      | inr (failure, e) ↦ rw (explain, e) refl
    ]

    pub explain-ok : (a : A) → (explain text m s).0 ≡ ok a → (m s).0 ≡ ok a
    explain-ok a h = elim (Result-cases (m s).0) [
      | inl (b, e) ↦ ground arith
      | inr (failure, e) ↦ absurd (ground arith)
    ]
