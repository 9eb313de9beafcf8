-- ===== src/Sync/SemaphoreBuffer/Steps.antt =====
-- Every step keeps the counts.
use cp.Common.{refl, List, [], ◌∷◌}
use cp.Sync.SemaphoreBuffer.{
  Program, State, producer, consumer, Step, producer_step, consumer_step, step, run,
}
use cp.Sync.SemaphoreBuffer.Invariant.{Inv}
use cp.Sync.SemaphoreBuffer.Producers.{here, Inv-producer_at}
use cp.Sync.SemaphoreBuffer.Consumers.{there, Inv-consumer_at}

module _ (p : Program) where
  Inv-step : (e : Step) (s : State) → Inv p s → Inv p (step p e s)
  unfolding step producer consumer
  Inv-step (producer_step k) s inv = Inv-producer_at p k (here p s k).place s inv refl
  Inv-step (consumer_step k) s inv = Inv-consumer_at p k (there p s k).place s inv refl

  pub Inv-run : (es : List Step) (s : State) → Inv p s → Inv p (run p es s)
  unfolding run
  Inv-run [] s inv = inv
  Inv-run (e ∷ es) s inv = Inv-run es (step p e s) (Inv-step e s inv)
