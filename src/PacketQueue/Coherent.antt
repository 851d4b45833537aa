-- ===== src/PacketQueue/Coherent.antt =====
-- What push and pop_until know stays true.
use hv_frame_test.Base.{
  ◌≡◌, ◌≢◌, refl, subst, Bool, true, false, Option, none, some, leb, if◌then◌else◌, length,
}
use hv_frame_test.PacketQueue.{PacketQueue, World, is_nil}
use hv_frame_test.PacketQueue.Monitor.{
  Holder, pusher_holds, popper_holds, push_away, dropping, putting, notifying, seeing_flag,
  deciding, Monitor, Effect, count_drop, put_in, take_out, Micro, calls_push, locks_push, sizes,
  drops, puts, unlocks_push, notifies, calls_pop, locks_pop, sees_queue, sees_flag, sleeps,
  wakes_up, locks_again, finds_none, finds_some, takes, unlocks_pop, flag_set, MicroReach, at_rest,
  after,
}
use hv_frame_test.PacketQueue.Knows.{
  and_false, PusherKnows, PopperKnows, Coherent, pusher_outside, popper_outside, popper_notified,
  popper_told,
}

none≢holds : (x : Holder) (h : Option Holder) → h ≡ none → h ≢ some x
none≢holds x h e f = cc

pusher≢popper : (h : Option Holder) → h ≡ some pusher_holds → h ≢ some popper_holds
pusher≢popper h e f = cc

popper≢pusher : (h : Option Holder) → h ≡ some popper_holds → h ≢ some pusher_holds
popper≢pusher h e f = cc

module _ {A : Type 0} where
  sized-knows :
      (h : Option Holder) (q : PacketQueue A) (x : A) (full : Bool)
      → h ≡ some pusher_holds
      → leb q.capacity (length q.q) ≡ full
      → PusherKnows h q (if full then dropping x else putting x)
  sized-knows h q x true own e = (own, e)
  sized-knows h q x false own e = (own, e)

  unlocked-knows :
      (q : PacketQueue A) (b : Bool) → PusherKnows none q (if b then notifying else push_away)
  unlocked-knows q true = tt
  unlocked-knows q false = tt

  seen-knows :
      (h : Option Holder) (w : World A) (empty : Bool)
      → h ≡ some popper_holds
      → is_nil w.queue.q ≡ empty
      → PopperKnows h w (if empty then seeing_flag else deciding false)
  seen-knows h w true own e = (own, e)
  seen-knows h w false own e = (own, λ _. rw e refl)

  Micro-Coherent : {s t : Monitor A} {e : Effect A} → Micro s e t → Coherent s → Coherent t
  Micro-Coherent (calls_push x a) k = record { pusher_knows = tt; popper_knows = k.popper_knows }
  Micro-Coherent {s} (locks_push x a free) k = record {
    pusher_knows = refl;
    popper_knows =
        popper_outside s.holder _ s.world s.world s.popper (none≢holds popper_holds s.holder free)
          k.popper_knows;
  }
  Micro-Coherent {s} (sizes x a) k = record {
    pusher_knows =
        sized-knows s.holder s.world.queue x _
          (subst (PusherKnows s.holder s.world.queue) a k.pusher_knows) refl;
    popper_knows = k.popper_knows;
  }
  Micro-Coherent {s} (drops x a) k =
      let (own, _) = subst (PusherKnows s.holder s.world.queue) a k.pusher_knows in
      record {
        pusher_knows = own;
        popper_knows =
            popper_outside s.holder s.holder s.world (count_drop s.world) s.popper
              (pusher≢popper s.holder own) k.popper_knows;
      }
  Micro-Coherent {s} (puts x a) k =
      let (own, _) = subst (PusherKnows s.holder s.world.queue) a k.pusher_knows in
      record {
        pusher_knows = own;
        popper_knows =
            popper_outside s.holder s.holder s.world (put_in s.world x) s.popper
              (pusher≢popper s.holder own) k.popper_knows;
      }
  Micro-Coherent {s} (unlocks_push b a) k =
      let own = subst (PusherKnows s.holder s.world.queue) a k.pusher_knows in
      record {
        pusher_knows = unlocked-knows s.world.queue b;
        popper_knows =
            popper_outside s.holder none s.world s.world s.popper (pusher≢popper s.holder own)
              k.popper_knows;
      }
  Micro-Coherent {s} (notifies a) k = record {
    pusher_knows = tt;
    popper_knows = popper_notified s.holder s.world s.popper k.popper_knows;
  }
  Micro-Coherent (calls_pop a) k = record { pusher_knows = k.pusher_knows; popper_knows = tt }
  Micro-Coherent {s} (locks_pop a free) k = record {
    pusher_knows =
        pusher_outside s.holder _ s.world.queue s.world.queue s.pusher
          (none≢holds pusher_holds s.holder free) k.pusher_knows;
    popper_knows = refl;
  }
  Micro-Coherent {s} (sees_queue a) k = record {
    pusher_knows = k.pusher_knows;
    popper_knows =
        seen-knows s.holder s.world _ (subst (PopperKnows s.holder s.world) a k.popper_knows) refl;
  }
  Micro-Coherent {s} (sees_flag a told) k =
      let (own, _) = subst (PopperKnows s.holder s.world) a k.popper_knows in
      record {
        pusher_knows = k.pusher_knows;
        popper_knows = (own, λ _. rw told (and_false (is_nil s.world.queue.q)));
      }
  Micro-Coherent {s} (sleeps a b) k =
      let (own, _) = subst (PopperKnows s.holder s.world) a k.popper_knows in
      record {
        pusher_knows =
            pusher_outside s.holder none s.world.queue s.world.queue s.pusher
              (popper≢pusher s.holder own) k.pusher_knows;
        popper_knows = tt;
      }
  Micro-Coherent (wakes_up a) k = record { pusher_knows = k.pusher_knows; popper_knows = tt }
  Micro-Coherent {s} (locks_again a free) k = record {
    pusher_knows =
        pusher_outside s.holder _ s.world.queue s.world.queue s.pusher
          (none≢holds pusher_holds s.holder free) k.pusher_knows;
    popper_knows = (refl, λ e. absurd (cc));
  }
  Micro-Coherent {s} (finds_none b a empty) k =
      let (own, _) = subst (PopperKnows s.holder s.world) a k.popper_knows in
      record { pusher_knows = k.pusher_knows; popper_knows = own }
  Micro-Coherent {s} (finds_some b a some_left) k =
      let (own, why) = subst (PopperKnows s.holder s.world) a k.popper_knows in
      record { pusher_knows = k.pusher_knows; popper_knows = (own, why, some_left) }
  Micro-Coherent {s} (takes b a) k =
      let (own, _, _) = subst (PopperKnows s.holder s.world) a k.popper_knows in
      record {
        pusher_knows =
            pusher_outside s.holder s.holder s.world.queue (take_out s.world).queue s.pusher
              (popper≢pusher s.holder own) k.pusher_knows;
        popper_knows = own;
      }
  Micro-Coherent {s} (unlocks_pop o a) k =
      let own = subst (PopperKnows s.holder s.world) a k.popper_knows in
      record {
        pusher_knows =
            pusher_outside s.holder none s.world.queue s.world.queue s.pusher
              (popper≢pusher s.holder own) k.pusher_knows;
        popper_knows = tt;
      }
  Micro-Coherent {s} flag_set k = record {
    pusher_knows = k.pusher_knows;
    popper_knows = popper_told s.holder s.world s.popper k.popper_knows;
  }

  pub MicroReach-Coherent : {s : Monitor A} → MicroReach s → Coherent s
  MicroReach-Coherent (at_rest capacity) = record { pusher_knows = tt; popper_knows = tt }
  MicroReach-Coherent (after r m) = Micro-Coherent m (MicroReach-Coherent r)
