-- ===== src/Tests/ClientExamples.antt =====
-- The theorems on the client, applied to the systems in memory.
use distributed_cache_system.Prelude.{ℕ, ◌≡◌, true, some}
use distributed_cache_system.Prelude.Action.{Ensures}
use distributed_cache_system.Status.{is_ok}
use distributed_cache_system.Posix.{path_eq, nat_eq, int_eq}
use distributed_cache_system.Client.HashFile.{hash_file}
use distributed_cache_system.Client.HashFile.Outcome.{HashOutcome, hash_file-Ensures}
use distributed_cache_system.Client.DataPlane.{IsDataPlaneClient}
use distributed_cache_system.Client.Grpc.{target, grpc_put, grpc_get, grpc_client}
use distributed_cache_system.Client.Grpc.Download.{GetOutcome, grpc_get-Ensures}
use distributed_cache_system.Client.Grpc.Upload.{grpc_put-Ensures}
use distributed_cache_system.Client.Grpc.Sending.{Uploaded}
use distributed_cache_system.Client.Grpc.Lawful.{grpc_client-IsDataPlaneClient}
use distributed_cache_system.Client.Storage.{temp_destination, client_put, client_get}
use distributed_cache_system.Client.Storage.Get.{Answers, client_get-Ensures}
use distributed_cache_system.Client.Storage.Staging.{Kept, GetEnd}
use distributed_cache_system.Client.Storage.Put.{
  put_request, PutAsked, client_put-Ensures, client_put-Uploaded,
}
use distributed_cache_system.Programs.Client.{put_object, get_object, client_main}
use distributed_cache_system.Programs.Client.Exits.{Fetched, client_main-put, client_main-get}
use distributed_cache_system.Tests.Memory.{fs, memory}
use distributed_cache_system.Tests.Memory.Documented.{memory-IsDocumented}
use distributed_cache_system.Tests.Inputs.{toy_hash, toy_hash-IsBlake3, request}
use distributed_cache_system.Tests.Loopback.{loopback, loopback-IsFinite}
use distributed_cache_system.Tests.Transfers.{
  source, destination, with_source, idle, to, object, whole_chunk,
}

lawful : IsDataPlaneClient memory (grpc_client memory loopback)
lawful = grpc_client-IsDataPlaneClient memory loopback memory-IsDocumented loopback-IsFinite

grpc_client-IsDataPlaneClient_example : IsDataPlaneClient memory (grpc_client memory loopback)
grpc_client-IsDataPlaneClient_example =
    grpc_client-IsDataPlaneClient memory loopback memory-IsDocumented loopback-IsFinite

hash_file-Ensures_example :
    Ensures
      (hash_file memory toy_hash source with_source)
      (λ r t. HashOutcome toy_hash source (fs with_source) r × (fs t ≡ fs with_source))
hash_file-Ensures_example =
    hash_file-Ensures memory memory-IsDocumented toy_hash toy_hash-IsBlake3 source with_source

client_get-Ensures_example :
    Ensures
      (client_get memory toy_hash
        (grpc_client memory loopback)
        to
        object
        destination
        ((with_source, idle), 0))
      (λ st t.
        GetEnd toy_hash
          (λ head contents.
            Answers memory
              (grpc_client memory loopback)
              to
              object
              ((memory.exists destination with_source).1, idle)
              head)
          (temp_destination memory destination 0)
          destination
          (fs with_source)
          st
          (fs t.0.0))
client_get-Ensures_example =
    client_get-Ensures memory memory-IsDocumented toy_hash toy_hash-IsBlake3
      (grpc_client memory loopback) lawful to object destination with_source idle 0

grpc_get-Ensures_example :
    Ensures (grpc_get memory loopback to whole_chunk destination (with_source, idle)) (λ st t.
      GetOutcome memory loopback to whole_chunk destination (fs with_source) idle st (fs t.0))
grpc_get-Ensures_example =
    grpc_get-Ensures memory memory-IsDocumented loopback loopback-IsFinite to whole_chunk
      destination with_source idle

grpc_put-Ensures_example :
    Ensures (grpc_put memory loopback to request source (with_source, idle)) (λ st t.
      (fs t.0 ≡ fs with_source)
      × (is_ok st ≡ true
          → Uploaded loopback request source
              (fs with_source)
              (loopback.start_put (target memory to) idle)
              t.1))
grpc_put-Ensures_example =
    grpc_put-Ensures memory memory-IsDocumented loopback to request source with_source idle

client_put-Ensures_example :
    Ensures
      (client_put memory toy_hash
        (grpc_client memory loopback)
        to
        object
        source
        (with_source, idle))
      (λ st t.
        (fs t.0 ≡ fs with_source)
        × PutAsked memory toy_hash
            (grpc_client memory loopback)
            to
            object
            source
            (fs with_source)
            idle
            st
            t)
client_put-Ensures_example =
    client_put-Ensures memory toy_hash (grpc_client memory loopback) to object source
      memory-IsDocumented toy_hash-IsBlake3 lawful with_source idle

client_put-Uploaded_example :
    Ensures
      (client_put memory toy_hash
        (grpc_client memory loopback)
        to
        object
        source
        (with_source, idle))
      (λ st t.
        (fs t.0 ≡ fs with_source)
        × (is_ok st ≡ true
            → (i : ℕ) × ((fs with_source).entry source ≡ some i)
              × Uploaded loopback
                  (put_request toy_hash object ((fs with_source).bytes i))
                  source
                  (fs with_source)
                  (loopback.start_put (target memory to) idle)
                  t.1))
client_put-Uploaded_example =
    client_put-Uploaded memory toy_hash loopback to object source memory-IsDocumented
      toy_hash-IsBlake3 loopback-IsFinite with_source idle

client_main-put_example :
    Ensures
      (client_main memory toy_hash loopback to
        (put_object object.value source)
        ((with_source, idle), 0))
      (λ finished t.
        (fs t.0.0 ≡ fs with_source)
        × (finished.exit_code ≡ 0
            → (i : ℕ) × ((fs with_source).entry source ≡ some i)
              × Uploaded loopback
                  (put_request toy_hash object ((fs with_source).bytes i))
                  source
                  (fs with_source)
                  (loopback.start_put (target memory to) idle)
                  t.0.1))
client_main-put_example =
    client_main-put memory memory-IsDocumented toy_hash toy_hash-IsBlake3 loopback loopback-IsFinite
      to object.value with_source idle 0 source

client_main-get_example :
    Ensures
      (client_main memory toy_hash loopback to
        (get_object object.value destination)
        ((with_source, idle), 0))
      (λ finished t.
        Kept (temp_destination memory destination 0) destination (fs with_source) (fs t.0.0)
        × (finished.exit_code ≡ 0
            → Fetched memory toy_hash loopback to object.value destination with_source idle
                (fs t.0.0)))
client_main-get_example =
    client_main-get memory memory-IsDocumented toy_hash toy_hash-IsBlake3 loopback loopback-IsFinite
      to object.value with_source idle 0 destination
