-- ===== src/Tests/WireExamples.antt =====
-- The theorems on the channel, applied to a transfer in memory.
use distributed_cache_system.Prelude.{ℕ, ◌≡◌, true, some, length}
use distributed_cache_system.Prelude.Action.{Ensures}
use distributed_cache_system.Status.{is_ok}
use distributed_cache_system.Posix.{path_eq, nat_eq, int_eq}
use distributed_cache_system.Client.Grpc.{grpc_get, grpc_client}
use distributed_cache_system.Client.Storage.{client_put, client_get}
use distributed_cache_system.Client.Storage.Put.{put_request}
use distributed_cache_system.Wire.Get.{AtClient, grpc_get-AtClient}
use distributed_cache_system.Wire.RoundTrip.{whole_object, grpc_get-client_put}
use distributed_cache_system.Wire.Objects.{Restored, client_get-client_put}
use distributed_cache_system.Wire.Put.{AtWorker, client_put-AtWorker}
use distributed_cache_system.Tests.Memory.{fs, memory}
use distributed_cache_system.Tests.Memory.Documented.{memory-IsDocumented}
use distributed_cache_system.Tests.Inputs.{toy_hash, toy_hash-IsBlake3, root, empty}
use distributed_cache_system.Tests.Loopback.{
  loopback, loopback-IsFinite, loopback-IsWired, loopback-IsWiredGet, loopback-IsWiredUnary,
}
use distributed_cache_system.Tests.Transfers.{
  source, destination, with_source, idle, to, object, whole_chunk, small, put_end, put_end_is_ok,
  put_end_runs, source_named,
}

client_put-AtWorker_example :
    Ensures
      (client_put memory toy_hash
        (grpc_client memory loopback)
        to
        object
        source
        (with_source, idle))
      (λ st t.
        is_ok st ≡ true
        → (i : ℕ) × ((fs with_source).entry source ≡ some i)
          × AtWorker root
              (put_request toy_hash object ((fs with_source).bytes i))
              ((fs with_source).bytes i)
              (fs idle.worker)
              (fs t.1.worker))
client_put-AtWorker_example =
    client_put-AtWorker memory memory toy_hash loopback root (λ n. n.worker) (λ n. n.sent)
      memory-IsDocumented memory-IsDocumented toy_hash-IsBlake3 loopback-IsFinite loopback-IsWired
      to object source with_source idle small

-- The client downloads to a machine without files what it has put.
grpc_get-client_put_example :
    Ensures
      (grpc_get memory loopback to
        (whole_object object (length ((fs with_source).bytes 0)))
        destination
        (empty, put_end.1.1))
      (λ st v.
        is_ok st ≡ true
        → (k : ℕ) × ((fs v.0).entry destination ≡ some k)
          × ((fs v.0).bytes k ≡ (fs with_source).bytes 0))
grpc_get-client_put_example =
    grpc_get-client_put memory memory toy_hash loopback root (λ n. n.worker) (λ n. n.sent)
      memory-IsDocumented memory-IsDocumented toy_hash-IsBlake3 loopback-IsFinite loopback-IsWired
      loopback-IsWiredGet to object source with_source idle small put_end.0 put_end.1 0 destination
      empty put_end_runs put_end_is_ok source_named

grpc_get-AtClient_example :
    Ensures (grpc_get memory loopback to whole_chunk destination (empty, put_end.1.1)) (λ st t.
      is_ok st ≡ true → AtClient root whole_chunk (fs put_end.1.1.worker) destination (fs t.0))
grpc_get-AtClient_example =
    grpc_get-AtClient memory memory toy_hash loopback root (λ n. n.worker) memory-IsDocumented
      memory-IsDocumented loopback-IsFinite loopback-IsWiredGet to whole_chunk destination empty
      put_end.1.1

client_get-client_put_example :
    Ensures
      (client_get memory toy_hash
        (grpc_client memory loopback)
        to
        object
        destination
        ((empty, put_end.1.1), 0))
      (λ st v.
        is_ok st ≡ true → Restored destination ((fs with_source).bytes 0) (fs empty) (fs v.0.0))
client_get-client_put_example =
    client_get-client_put memory memory toy_hash loopback root (λ n. n.worker) (λ n. n.sent)
      memory-IsDocumented memory-IsDocumented toy_hash-IsBlake3 loopback-IsFinite loopback-IsWired
      loopback-IsWiredGet loopback-IsWiredUnary to object source with_source idle small put_end.0
      put_end.1 0 destination empty 0 put_end_runs put_end_is_ok source_named
