-- ===== src/Service/Start/Shape.antt =====
-- What the start consists of, where it does not panic.
use feed_mux.Prelude.{
  ℕ, ◌≡◌, refl, sym, arith, List, ◌++◌, Bool, Option, none, some, Text, Option-cases, inl, inr,
  some-injective,
}
use feed_mux.Config.{Config, Base58Decode}
use feed_mux.Service.Start.{Task, Started, started_with, spawn_feeds, both, run}

pub run-started_with :
    (decode : Base58Decode) (encode : List ℕ → Text) (port : Text → Option ℕ)
    (opens connects binds : Text → Bool) (config : Config) (started : Started)
    → run decode encode port opens connects binds config ≡ some started
    → (feeds : List Task) × (started ≡ started_with opens connects binds config feeds)
      × (spawn_feeds decode encode port config ≡ some feeds)
unfolding run
run-started_with decode encode port opens connects binds config started e =
    elim (Option-cases (spawn_feeds decode encode port config)) [
      | inl h ↦ absurd (ground (arith, rw (run, h) at e))
      | inr (feeds, h) ↦ (
        feeds,
        sym (
            some-injective (started_with opens connects binds config feeds) started
              (rw (run, h) at e)),
        h,
      )
    ]

pub both-some :
    (r q : Option (List Task)) (ts : List Task)
    → both r q ≡ some ts
    → (us : List Task) × (vs : List Task) × (r ≡ some us) × (q ≡ some vs) × (ts ≡ us ++ vs)
both-some (some us) (some vs) ts e = (us, vs, refl, refl, sym (some-injective (us ++ vs) ts e))
both-some (some us) none ts e = absurd (ground (arith, e))
both-some none q ts e = absurd (ground (arith, e))
