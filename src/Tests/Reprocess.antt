-- ===== src/Tests/Reprocess.antt =====
-- A guard that asks twice for an event to be processed again.
use ts_gaurd_service.Base.{
  ◌+◌, ◌<◌, ℕ, Bool, true, ◌&&◌, Option, none, ◌≡◌, refl, ◌⊎◌, some, List, [], ◌∷◌, ◌++◌, map,
  String, if◌then◌else◌, ok, count, select, count-select, arith, ◌∙◌, sym, ap,
}
use ts_gaurd_service.Constants.{EventStatus}
use ts_gaurd_service.Reprocess.{
  ReprocessEntity, Requests, Reprocessing, Reprocessor, process_reprocess_request,
}
use ts_gaurd_service.Reprocess.Cooldown.{process_reprocess_request_once}
use ts_gaurd_service.Tests.Tables.{count-all}
use ts_gaurd_service.Tests.Data.{test_db, event_row, empty_store}

same_tail :
    (q : ReprocessEntity → Bool) (rs xs ys : List ReprocessEntity)
    → count q xs ≡ count q ys
    → count q (rs ++ xs) ≡ count q (rs ++ ys)
same_tail q [] xs ys e = e
same_tail q (r ∷ rs) xs ys e = ground (arith, same_tail q rs xs ys e)

-- The requests are a list.
abbrev list_requests : Requests
list_requests = record {
  Table = List ReprocessEntity;
  find = λ p t. select p t;
  insert = λ rs t. some (rs ++ t);
  update = λ p f t. some (map (λ r. if p r then f r else r) t);
  count-find =
      λ q p t. count-select q p t ∙ sym (count-all (λ r. r.request_id) (λ r. q r && p r) t);
  count-insert = λ rs t t' e q.
      count-all (λ r. r.request_id) q t'
      ∙ ap (λ (o : Option (List ReprocessEntity)). elim o [ none ↦ 0 | some u ↦ count q u ]) (sym e)
      ∙ same_tail q rs t (select (λ _. true) t) (sym (count-all (λ r. r.request_id) q t));
}

abbrev reprocessor : ℕ → Reprocessor
reprocessor now = record {
  now = now;
  reprocess_cooldown = 100;
  dialer_id = "me";
  random_id = "id";
  send = λ _. ok tt;
}

abbrev timed_out : Reprocessing test_db list_requests
timed_out = record {
  store = record (empty_store) { events = (event_row EventStatus.timeout ∷ [], refl) };
  table = [];
  sent = [];
}

process_reprocess_request_once_example :
    let w' =
      (process_reprocess_request test_db list_requests
        (reprocessor 1000)
        "r"
        "event"
        990
        "peer"
        timed_out).1 in
    (w'.table ≡ [])
    ⊎ ((later : Reprocessor) (request_id' event_id' : String) (timestamp' : ℕ)
        → later.now < 990 + later.reprocess_cooldown
        → process_reprocess_request test_db list_requests later request_id' event_id' timestamp'
            "peer" w'
          ≡ (ok tt, w'))
process_reprocess_request_once_example =
    process_reprocess_request_once test_db list_requests (reprocessor 1000) "r" "event" "peer" 990
      timed_out
