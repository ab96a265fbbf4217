-- ===== src/Titan/Quote/Size.antt =====
-- Whence the size of a quote comes.
use feed_mux.Prelude.{ℕ, ◌≡◌, refl, arith, List, Option, none, some, ◌>>=◌, Text, codes}
use feed_mux.Prelude.TreeMap.{nat_key}
use feed_mux.Config.{Base58Decode}
use feed_mux.Titan.Value.{Value, map_get}
use feed_mux.Titan.Registry.{TitanStreamRegistry, size_for_stream}
use feed_mux.Titan.Route.{select_best_route, extract_hop1_leg}
use feed_mux.Titan.Quote.{
  ParsedHop1Quote, parse_stream_data_hop1, mint_pair_label, get_u32, get_u64, get_pubkey,
}

-- A property of the value of a chain, where it has one.
abbrev pub Every {ℓ κ} : {A : Type ℓ} → (A → Type κ) → Option A → Type κ
Every P none = Unit
Every P (some a) = P a

Every-bind {ℓ κ} :
    {A B : Type ℓ} (P : B → Type κ) (o : Option A) (f : A → Option B)
    → ((a : A) → Every P (f a))
    → Every P (o >>= f)
Every-bind P none f h = ground arith
Every-bind P (some a) f h = h a

module _ (decode : Base58Decode) (encode : List ℕ → Text) (r : TitanStreamRegistry) where
  abbrev pub HasSize : ParsedHop1Quote → Type 0
  HasSize q = (size : ℕ) → size_for_stream r q.stream_id ≡ some size → q.size_lamports ≡ size

  pub size_of_quote : (v : Value) → Every HasSize (parse_stream_data_hop1 decode encode (some v) r)
  unfolding parse_stream_data_hop1
  size_of_quote v = Every-bind HasSize (get_u32 decode encode v (codes "id")) _ (λ a.
      Every-bind HasSize (map_get v (codes "payload")) _ (λ b.
        Every-bind HasSize (map_get b (codes "SwapQuotes")) _ (λ c.
          Every-bind HasSize (get_pubkey decode encode c (codes "inputMint")) _ (λ d.
            Every-bind HasSize (get_pubkey decode encode c (codes "outputMint")) _ (λ e.
              Every-bind HasSize (map_get c (codes "quotes")) _ (λ f.
                Every-bind HasSize (select_best_route f c) _ (λ g.
                  Every-bind HasSize (mint_pair_label d e) _ (λ h.
                    Every-bind HasSize (extract_hop1_leg decode encode g.1) _ (λ i.
                      Every-bind HasSize (get_u64 decode encode g.1 (codes "outAmount")) _
                        (λ j. λ size k. rw k refl))))))))))
