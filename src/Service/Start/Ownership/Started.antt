-- ===== src/Service/Start/Ownership/Started.antt =====
-- No two of the tasks that the program starts own the same key.
use feed_mux.Prelude.{
  ℕ, ◌≤◌, ◌≡◌, sym, subst, ap, ◌∙◌, List, ◌∷◌, ◌++◌, Bool, true, Option, some, Text,
}
use feed_mux.Config.{Config}
use feed_mux.Fanout.{Command}
use feed_mux.Service.Start.{Task, Started, started_with, run}
use feed_mux.Service.Start.Shape.{run-started_with}
use feed_mux.Service.Start.Tasks.{Libraries, RunsTo}
use feed_mux.Service.Start.Ownership.{owns}
use feed_mux.Service.Start.Ownership.Alone.{OwnOnly, AllApart, RunsTo-OwnOnly}
use feed_mux.Service.Start.Ownership.Owners.{
  owners, owners_zero, alone, alone_among, started_owners,
}

-- The other tasks own none of the keys of a task.
pub run-AllApart :
    (lib : Libraries) (port : Text → Option ℕ) (opens connects binds : Text → Bool)
    (config : Config) (started : Started) (before after : List Task) (t : Task)
    → run lib.base58_decode lib.base58_encode port opens connects binds config ≡ some started
    → started.tasks ≡ before ++ (t ∷ after)
    → AllApart lib started.fanout t (before ++ after)
run-AllApart lib port opens connects binds config started before after t e split k mine =
    let (feeds, same, there) =
      run-started_with lib.base58_decode lib.base58_encode port opens connects binds config started
        e in
    let tasks : (started_with opens connects binds config feeds).tasks ≡ before ++ (t ∷ after) =
      ap (λ x. x.tasks) (sym same) ∙ split in
    alone_among k before after t mine (
      subst (λ ts. owners k ts ≤ 1) tasks
        (started_owners lib.base58_decode lib.base58_encode port config k opens connects binds feeds
          there))

-- Whatever the configuration under which the program starts, and for any of the tasks that it starts:
-- whatever these tasks do, however far each has come and in whatever order their commands reach
-- Redis, the commands that write a key of the task are its own, up to some point of one of its
-- histories and in the task's order. The keys of a task are those that `owns` names.
pub run-OwnOnly :
    (lib : Libraries) (port : Text → Option ℕ) (opens connects binds : Text → Bool)
    (config : Config) (started : Started) (before after : List Task) (t : Task) (log : List Command)
    → run lib.base58_decode lib.base58_encode port opens connects binds config ≡ some started
    → started.tasks ≡ before ++ (t ∷ after)
    → RunsTo lib started.fanout started.tasks log
    → OwnOnly lib started.fanout t log
run-OwnOnly lib port opens connects binds config started before after t log e split r =
    let (feeds, same, there) =
      run-started_with lib.base58_decode lib.base58_encode port opens connects binds config started
        e in
    let tasks : (started_with opens connects binds config feeds).tasks ≡ before ++ (t ∷ after) =
      ap (λ x. x.tasks) (sym same) ∙ split in
    let others : (k : Text) → owns t k ≡ true → (owners k before ≡ 0) × (owners k after ≡ 0) =
      λ k mine. alone k before after t mine (
        subst (λ ts. owners k ts ≤ 1) tasks
          (started_owners lib.base58_decode lib.base58_encode port config k opens connects binds
            feeds there)) in
    RunsTo-OwnOnly lib started.fanout before after t log
      (λ k mine. owners_zero k before (others k mine).0)
      (λ k mine. owners_zero k after (others k mine).1)
      (subst (λ ts. RunsTo lib started.fanout ts log) split r)
