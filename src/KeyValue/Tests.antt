-- ===== src/KeyValue/Tests.antt =====
-- The theorems on key-value stores and watchers at concrete runs.
use module_nats.Common.{
  ℕ, ◌+◌, ◌*◌, ◌<◌, ◌≤◌, ℤ, pos, ◌≡◌, refl, true, false, Option, none, some, List, [], ◌∷◌, arith,
}
use module_nats.Common.Int.{◌-ℤ◌, int64}
use module_nats.Runtime.{Status, Arg, text, ok}
use module_nats.Poll.{proceed, resume, effective}
use module_nats.Poll.Ends.{Returns}
use module_nats.KeyValue.Entry.{Entry, EntryInfo}
use module_nats.KeyValue.Client.{Event, waited, no_entry, Client, Handle, create, check}
use module_nats.KeyValue.Store.{write}
use module_nats.KeyValue.Watcher.{next}
use module_nats.KeyValue.Memory.{Balanced, created, later, nexts, Reach-Balanced}
use module_nats.KeyValue.Watching.{spent, empty_answers, next-bound, next-Returns}
use module_nats.Common.Int.{uint64}
use module_nats.KeyValue.Revisions.{uint64-write}

abbrev stored_entry : Entry
stored_entry = record {
  bucket = some "b";
  key = some "k";
  value = none;
  revision = 5;
  created = pos 0;
  operation = pos 1;
}

-- NATS_OK without an entry, then a timeout, then entry 4.
abbrev answers : List Event → ℤ → Status × Option ℕ
answers [] w = (Status.nats_ok, none)
answers (a ∷ []) w = (Status.nats_ok, none)
answers (a ∷ b ∷ []) w = (Status.nats_ok, none)
answers (a ∷ no_entry ∷ c) w = (Status.nats_timeout, none)
answers _ w = (Status.nats_ok, some 4)

abbrev client : Client
client = record {
  poll_interval = 250;
  check_cancel = λ tr. false;
  write = λ tr call args. (Status.nats_ok, 9);
  call_status = λ tr call args. Status.nats_ok;
  get = λ tr key. (Status.nats_ok, 4);
  keys = λ tr. (Status.nats_not_found, []);
  history = λ tr key. (Status.nats_ok, 4 ∷ 5 ∷ []);
  bucket = "b";
  status = λ tr. (
    Status.nats_ok,
    record {
      bucket = some "b";
      values = 1;
      history = pos 1;
      ttl = 0;
      replicas = pos 1;
      bytes = 10;
    },
  );
  default_options = record { ignore_deletes = false; meta_only = false; updates_only = false };
  next = answers;
  entry = λ e. stored_entry;
  set_refuses = λ key. false;
}

abbrev fresh : Handle
fresh = create 11 true

abbrev entry_info : EntryInfo
entry_info = record {
  bucket = some "b";
  key = some "k";
  value = none;
  revision = some (pos 5);
  created = none;
  operation = some (pos 1);
}

abbrev after_next : Handle
after_next = record {
  creator = 11;
  is_set = true;
  trace =
      Event.destroyed 4
      ∷ Event.received 4
      ∷ waited (pos 50) Status.nats_ok
      ∷ Event.checked false
      ∷ waited (pos 250) Status.nats_timeout
      ∷ Event.checked false
      ∷ no_entry
      ∷ waited (pos 250) Status.nats_ok
      ∷ Event.checked false
      ∷ Event.checked false
      ∷ [];
}

run : next client 400 (pos 300) fresh ≡ some (ok (some entry_info), after_next)
unfolding next proceed resume ◌-ℤ◌ effective
run = refl

Reach-Balanced_example : Balanced 4 after_next
Reach-Balanced_example =
    Reach-Balanced 4 client (later created (nexts 400 (pos 300) (ok (some entry_info)) run))

next-bound_example :
    spent after_next.trace + empty_answers fresh.trace * 250
    ≤ spent fresh.trace + 300 + empty_answers after_next.trace * 250
next-bound_example = next-bound client 400 300 fresh (ok (some entry_info)) after_next run

-- A client whose watcher never has an entry.
abbrev silent : Client
silent = record client { next = λ tr w. (Status.nats_timeout, none) }

silent-few :
    (tr : List Event) (w : ℤ) → silent.next tr w ≡ (Status.nats_ok, none) → empty_answers tr < 1
silent-few tr w e = cc

next-Returns_example : Returns (next silent 400 (pos 300) fresh)
next-Returns_example = next-Returns silent 1 (omega arith) silent-few 400 300 fresh (omega arith)

abbrev put_args : List Arg
put_args = text "k" ∷ text "v" ∷ []

written : Handle
written = (write client "kvStore_PutString" "failed" [] put_args fresh).1

write_run : write client "kvStore_PutString" "failed" [] put_args fresh ≡ (ok (pos 9), written)
unfolding write written int64
write_run = refl

uint64-write_example :
    client.write (check client fresh).1.trace "kvStore_PutString" put_args
    ≡ (Status.nats_ok, uint64 (pos 9))
uint64-write_example =
    uint64-write client "kvStore_PutString" "failed" [] put_args fresh written (pos 9)
      (λ tr. omega arith) write_run
