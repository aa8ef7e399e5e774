-- ===== src/Tests/Service.antt =====
-- Some jobs of the service on an event with its payment.
use ts_gaurd_service.Base.{[], ◌∷◌}
use ts_gaurd_service.Constants.{approved}
use ts_gaurd_service.Database.OneValid.{OneValid}
use ts_gaurd_service.Agreement.Approve.Runs.{clear}
use ts_gaurd_service.Service.{
  agree, confirm, time_out_events, pay_orders, after_jobs, after_jobs-OneValid,
}
use ts_gaurd_service.Tests.Data.{
  test_db, test_bridge, store_with, store_with-OneValid, no_agreement, peer_with,
}

after_jobs-OneValid_example :
    OneValid test_db
      (after_jobs test_db
        (agree clear
          ∷ confirm test_bridge
          ∷ time_out_events test_bridge
          ∷ pay_orders test_bridge
          ∷ [])
        (peer_with (store_with approved) no_agreement)).store.transactions
after_jobs-OneValid_example =
    after_jobs-OneValid test_db
      (agree clear
        ∷ confirm test_bridge
        ∷ time_out_events test_bridge
        ∷ pay_orders test_bridge
        ∷ [])
      (peer_with (store_with approved) no_agreement) (store_with-OneValid approved)
