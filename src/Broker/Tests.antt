-- ===== src/Broker/Tests.antt =====
-- A submission that the broker refuses for held shares, and one that a gateway answers.
use roi_gen.Base.{ℕ, ◌≡◌, refl, none, some, [], ◌∷◌}
use roi_gen.Models.Enums.{OrderStatus, known}
use roi_gen.Models.Rows.{put_order}
use roi_gen.Broker.Transport.{
  ErrorBody, Reply, Wire, submit_order, submit_answer, submit_over_wire, raise_for_status,
  classify_order_403,
}
use roi_gen.Broker.Transport.Definitive.{submit_over_wire-Follows}
use roi_gen.Handler.Submit.{SubmitAnswer}
use roi_gen.Handler.Tests.{request, identity, row, recorded}

abbrev response : ℕ → Reply
response status = Reply.responded (record {
  status = status;
  error_body = ErrorBody.object [] (some 40310000);
  payload = none;
  retry_after = none;
})

abbrev wire : Wire
wire = record { submit = response 403; lookups = []; nested = Reply.dropped; meanwhile = λ db. db }

-- A bad gateway leaves the fate of the order open, whatever its body says.
gateway_test : submit_answer (submit_order (response 502)) ≡ SubmitAnswer.ambiguous_state
unfolding raise_for_status
gateway_test = refl

submit_over_wire-Follows_example :
    (submit_over_wire 100 request identity wire recorded).world.db.orders
    ≡ put_order (record row { status = known OrderStatus.rejected }) (row ∷ [])
unfolding classify_order_403
submit_over_wire-Follows_example =
    submit_over_wire-Follows 100 request identity wire recorded row refl
