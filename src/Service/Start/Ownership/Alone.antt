-- ===== src/Service/Start/Ownership/Alone.antt =====
-- The tasks do not disturb each other: what reaches Redis of the commands on a key.
use feed_mux.Prelude.{
  ◌≡◌, refl, ap, ◌∙◌, arith, List, [], ◌∷◌, ◌++◌, Bool, true, false, Text, All, any, filter,
  Bool-cases, inl, inr, if◌then◌else◌,
}
use feed_mux.Fanout.{Command, set, set_ex, incr, del, publish_to, RedisFanout}
use feed_mux.Service.Start.{Task}
use feed_mux.Service.Start.Tasks.{
  Libraries, Sends, Between, ended, from_first, from_second, RunsTo, no_task, with_task,
}
use feed_mux.Service.Start.Ownership.{owns, Within, Sends-Within}

pub All-prefix : (P : Command → Type 0) (xs ys : List Command) → All P (xs ++ ys) → All P xs
All-prefix P [] ys h = tt
All-prefix P (x ∷ xs) ys h = (h.0, All-prefix P xs ys h.1)

-- Whether a command writes one of the keys.
abbrev pub writes : (Text → Bool) → Command → Bool
writes p (set k v) = p k
writes p (set_ex k v ttl) = p k
writes p (incr k n) = p k
writes p (del k) = p k
writes p (publish_to channel v) = false

abbrev Apart : (Text → Bool) → (Text → Bool) → Type 0
Apart p q = (k : Text) → p k ≡ true → q k ≡ false

filter-writes :
    (p q : Text → Bool) (cs : List Command)
    → Apart p q
    → All (Within q) cs
    → filter (writes p) cs ≡ []
filter-writes p q [] out h = refl
filter-writes p q (c ∷ cs) out h = rw (other c h.0) (filter-writes p q cs out h.1)
  where
    not_mine : (k : Text) → q k ≡ true → p k ≡ false
    not_mine k there = ground (arith, out k)

    other : (c : Command) → Within q c → writes p c ≡ false
    other (set k v) w = not_mine k w
    other (set_ex k v ttl) w = not_mine k w
    other (incr k n) w = not_mine k w
    other (del k) w = not_mine k w
    other (publish_to channel v) w = refl

filter-cons_nil :
    (q : Command → Bool) (d : Command) (ds : List Command)
    → filter q (d ∷ ds) ≡ []
    → (q d ≡ false) × (filter q ds ≡ [])
filter-cons_nil q d ds h = elim (Bool-cases (q d)) [
  | inl e ↦ absurd (ground (arith, h, e))
  | inr e ↦ (e, ground (arith, h, e))
]

filter-Between_first :
    (q : Command → Bool) (cs ds es : List Command)
    → Between cs ds es
    → filter q ds ≡ []
    → filter q es ≡ filter q cs
filter-Between_first q [] [] [] ended h = refl
filter-Between_first q [] (d ∷ ds) [] b h = elim b [ ]
filter-Between_first q (c ∷ cs) ds [] b h = elim b [ ]
filter-Between_first q (c ∷ cs) ds (c' ∷ es) (from_first b) h =
    ap (λ rest. if q c then c ∷ rest else rest) (filter-Between_first q cs ds es b h)
filter-Between_first q cs (d ∷ ds) (d' ∷ es) (from_second b) h =
    rw (filter-cons_nil q d ds h).0 (filter-Between_first q cs ds es b (filter-cons_nil q d ds h).1)

Between-swap : (cs ds es : List Command) → Between cs ds es → Between ds cs es
Between-swap [] [] [] ended = ended
Between-swap [] (d ∷ ds) [] b = elim b [ ]
Between-swap (c ∷ cs) ds [] b = elim b [ ]
Between-swap (c ∷ cs) ds (c' ∷ es) (from_first b) = from_second (Between-swap cs ds es b)
Between-swap cs (d ∷ ds) (d' ∷ es) (from_second b) = from_first (Between-swap cs ds es b)

module _ (lib : Libraries) (f : RedisFanout) where
  -- The writes of a task's keys that one of its histories leaves in the log.
  abbrev pub OwnOnly : Task → List Command → Type 0
  OwnOnly t log =
      (own : List Command) × (later : List Command) × Sends lib f t (own ++ later)
      × (filter (writes (owns t)) log ≡ filter (writes (owns t)) own)

  abbrev pub AllApart : Task → List Task → Type 0
  AllApart t ts = (k : Text) → owns t k ≡ true → any (λ u. owns u k) ts ≡ false

  task-writes :
      (t u : Task) (cs later : List Command)
      → Apart (owns t) (owns u)
      → Sends lib f u (cs ++ later)
      → filter (writes (owns t)) cs ≡ []
  task-writes t u cs later out s =
      filter-writes (owns t) (owns u) cs out
        (All-prefix (Within (owns u)) cs later (Sends-Within lib f u _ s))

  RunsTo-others :
      (t : Task) (ts : List Task) (log : List Command)
      → AllApart t ts
      → RunsTo lib f ts log
      → filter (writes (owns t)) log ≡ []
  RunsTo-others t [] _ out no_task = refl
  RunsTo-others t (u ∷ ts) log out (with_task later s r b) =
      filter-Between_first (writes (owns t)) _ _ log b
        (RunsTo-others t ts _ (λ k mine. ground (arith, out k mine)) r)
      ∙ task-writes t u _ later (λ k mine. ground (arith, out k mine)) s

  -- The commands of a task between those of others that own none of its keys.
  pub Between-own :
      (t : Task) (ts : List Task) (own others log : List Command)
      → AllApart t ts
      → RunsTo lib f ts others
      → Between own others log
      → filter (writes (owns t)) log ≡ filter (writes (owns t)) own
  Between-own t ts own others log out r b =
      filter-Between_first (writes (owns t)) own others log b (RunsTo-others t ts others out r)

  -- Where none of the keys of a task belongs to another of the tasks that run, then whatever the tasks do
  -- and in whatever order their commands reach Redis, the writes of the task's keys are its own, up to
  -- some point of one of its histories and in its order.
  pub RunsTo-OwnOnly :
      (before after : List Task) (t : Task) (log : List Command)
      → AllApart t before
      → AllApart t after
      → RunsTo lib f (before ++ (t ∷ after)) log
      → OwnOnly t log
  RunsTo-OwnOnly [] after t log out out' (with_task later s r b) = (
    _,
    later,
    s,
    filter-Between_first (writes (owns t)) _ _ log b (RunsTo-others t after _ out' r),
  )
  RunsTo-OwnOnly (u ∷ before) after t log out out' (with_task later s r b) =
      let (own, rest, mine, same) =
        RunsTo-OwnOnly before after t _ (λ k here. ground (arith, out k here)) out' r in
      (
        own,
        rest,
        mine,
        filter-Between_first (writes (owns t)) _ _ log (Between-swap _ _ log b)
              (task-writes t u _ later (λ k here. ground (arith, out k here)) s)
            ∙ same,
      )
