-- ===== src/Client/Storage/Staging.antt =====
-- A download on its way from the temporary name to the destination.
use distributed_cache_system.Prelude.{
  ℕ, ◌%◌, ◌≡◌, ◌≢◌, refl, sym, ◌∙◌, Bool, true, false, not, ◌||◌, none, some, List, ◌==◌, length,
  arith,
}
use distributed_cache_system.Prelude.Action.{Ensures, Ensures-some, Ensures-if, Ensures-bind}
use distributed_cache_system.Prelude.Maps.{update, update_self, update_ne}
use distributed_cache_system.Status.{Status, status, is_ok, StatusOr}
use distributed_cache_system.Types.{u64, same_checksum, HeadChunkResponse}
use distributed_cache_system.Types.Checksums.{same_checksum→eq}
use distributed_cache_system.Posix.{FilePath, Fs, Posix, with_entry, path_eq}
use distributed_cache_system.Posix.Documented.{IsDocumented, EntryOutcome, entry_kept, entry_set}
use distributed_cache_system.Posix.Unlinking.{Unlinked, unlink-Unlinked}
use distributed_cache_system.Blake3.{Blake3, IsBlake3}
use distributed_cache_system.Worker.Names.{finalize_hex}
use distributed_cache_system.Client.HashFile.{Hashed}
use distributed_cache_system.Client.HashFile.Outcome.{
  hashed, HashOutcome, hash_failed, hash_done, hash_file-Ensures,
}
use distributed_cache_system.Client.DataPlane.{Downloaded}
use distributed_cache_system.Client.Storage.{
  discard, link_destination, verify_download, after_download,
}

-- Files other than these two, and descriptors, are as before.
pub record Kept (temp destination : FilePath) (f g : Fs) : Type 0 where
  pub others : (q : FilePath) → temp ≢ q → destination ≢ q → g.entry q ≡ f.entry q
  pub contents : (q : FilePath) (j : ℕ) → f.entry q ≡ some j → g.bytes j ≡ f.bytes j
  pub descriptors : g.opened ≡ f.opened

-- A file with these contents has the size, modulo 2^64, and the checksum that the worker reported.
pub record IsReported (b : Blake3) (head : HeadChunkResponse) (contents : List ℕ) : Type 0 where
  pub size : length contents % u64 ≡ head.size
  pub checksum : finalize_hex b (b.update b.init contents) ≡ head.checksum.value

module _ (b : Blake3) (Reports : HeadChunkResponse → List ℕ → Type 0)
    (temp destination : FilePath) where
  -- The destination is left alone and Get reports an error, or it was free and names a file of the
  -- reported size and checksum, whose contents are related to the report as `Reports` says.
  pub data AtDestination (f : Fs) (st : Status) (g : Fs) : Type 0 where
    not_fetched :
        is_ok st ≡ false → g.entry destination ≡ f.entry destination → AtDestination f st g
    fetched :
        (head : HeadChunkResponse) (i : ℕ)
        → Reports head (g.bytes i)
        → is_ok st ≡ true
        → f.entry destination ≡ none
        → g.entry destination ≡ some i
        → IsReported b head (g.bytes i)
        → AtDestination f st g

  pub record GetEnd (f : Fs) (st : Status) (g : Fs) : Type 0 where
    pub kept : Kept temp destination f g
    pub at_destination : AtDestination f st g

  -- Before the link.
  pub record IsStaged (f g : Fs) : Type 0 where
    pub kept : Kept temp destination f g
    pub same : g.entry destination ≡ f.entry destination

  pub IsStaged-GetEnd : {f g : Fs} {st : Status} → IsStaged f g → is_ok st ≡ false → GetEnd f st g
  IsStaged-GetEnd staged bad = record {
    kept = staged.kept;
    at_destination = not_fetched bad staged.same;
  }

  pub IsStaged-same : {f g : Fs} → g ≡ f → IsStaged f g
  IsStaged-same e = rw e (record {
    kept = record { others = λ q _ _. refl; contents = λ q j _. refl; descriptors = refl };
    same = refl;
  })

  module _ (distinct : temp ≢ destination) where
    IsStaged-Unlinked : {f g h : Fs} → IsStaged f g → Unlinked g temp h → IsStaged f h
    IsStaged-Unlinked {g} staged u = rw u.result (record {
      kept = record {
        others = λ q ne_temp ne_destination.
            update_ne g.entry temp q u.left ne_temp ∙ staged.kept.others q ne_temp ne_destination;
        contents = staged.kept.contents;
        descriptors = staged.kept.descriptors;
      };
      same = update_ne g.entry temp destination u.left distinct ∙ staged.same;
    })

    Downloaded-IsStaged : {f g : Fs} {st : Status} → Downloaded temp f st g → IsStaged f g
    Downloaded-IsStaged d = record {
      kept = record {
        others = λ q ne_temp _. d.others q ne_temp;
        contents = d.contents;
        descriptors = d.descriptors;
      };
      same = d.others destination distinct;
    }

    linked_end :
        {f g h : Fs} {st : Status} (head : HeadChunkResponse) (i : ℕ)
        → IsStaged f g
        → g.entry destination ≡ none
        → Reports head (g.bytes i)
        → is_ok st ≡ true
        → IsReported b head (g.bytes i)
        → Unlinked (with_entry g destination (some i)) temp h
        → GetEnd f st h
    linked_end {g} head i staged free reports okay is u =
        let linked = update g.entry destination (some i) in
        rw u.result (record {
          kept = record {
            others = λ q ne_temp ne_destination.
                update_ne linked temp q u.left ne_temp
                ∙ update_ne g.entry destination q (some i) ne_destination
                ∙ staged.kept.others q ne_temp ne_destination;
            contents = staged.kept.contents;
            descriptors = staged.kept.descriptors;
          };
          at_destination =
              fetched head i reports okay (sym staged.same ∙ free)
                (update_ne linked temp destination u.left distinct
                  ∙ update_self g.entry destination (some i))
                is;
        })

    module _ (os : Posix) (laws : IsDocumented os) (hashes : IsBlake3 b) where
      open os use {State, fs, link, errno, eexist}

      discard-Ensures :
          {f : Fs} (s : State) (st : Status)
          → IsStaged f (fs s)
          → is_ok st ≡ false
          → Ensures (discard os temp st s) (λ st t. GetEnd f st (fs t))
      unfolding discard
      discard-Ensures s st staged bad =
          Ensures-some
            (IsStaged-GetEnd (IsStaged-Unlinked staged (unlink-Unlinked os laws temp s)) bad)

      link_destination-Ensures :
          {f : Fs} (head : HeadChunkResponse) (i : ℕ) (s : State)
          → IsStaged f (fs s)
          → (fs s).entry temp ≡ some i
          → Reports head ((fs s).bytes i)
          → IsReported b head ((fs s).bytes i)
          → Ensures (link_destination os temp destination s) (λ st t. GetEnd f st (fs t))
      unfolding link_destination discard status
      link_destination-Ensures {f} head i s staged named reports is =
          go (link temp destination s).0 refl (laws.link_adds temp destination s named)
        where
          t : State
          t = (link temp destination s).1

          go :
              (done : Bool)
              → (link temp destination s).0 ≡ done
              → EntryOutcome (fs s) destination (some i) done (fs t)
              → Ensures (link_destination os temp destination s) (λ st t. GetEnd f st (fs t))
          go false e (entry_set bad g) = cc
          go true e (entry_kept bad g) = cc
          go false e (entry_kept _ g) = rw e (
              Ensures-some (
                IsStaged-GetEnd
                  (IsStaged-Unlinked (rw (← g) at staged) (unlink-Unlinked os laws temp t))
                  (ground arith)))
          go true e (entry_set _ g) = rw e (
              Ensures-some (
                linked_end head i staged (laws.link_exclusive temp destination s e) reports refl is
                  (rw g at (unlink-Unlinked os laws temp t))))

      -- The comparison with what the worker reported.
      IsReported-same :
          (head : HeadChunkResponse) (contents : List ℕ)
          → (not ((hashed b contents).0 == head.size)
              || not (same_checksum (hashed b contents).1 head.checksum))
            ≡ false
          → IsReported b head contents
      IsReported-same head contents h = record {
        size = ground arith;
        checksum = same_checksum→eq (hashed b contents).1 head.checksum (ground arith);
      }

      pub after_download-Ensures :
          {f : Fs} (head : HeadChunkResponse) (s : State) (st : Status)
          → Downloaded temp f st (fs s)
          → (is_ok st ≡ true → (i : ℕ) → (fs s).entry temp ≡ some i → Reports head ((fs s).bytes i))
          → Ensures (after_download os b temp destination head st s) (λ st t. GetEnd f st (fs t))
      unfolding after_download status
      after_download-Ensures {f} head s st d reports =
          Ensures-if (is_ok st) _ _ s
            (λ okay.
              Ensures-bind _ (hash_file-Ensures os laws b hashes temp s)
                λ r t hash. go r t hash.0 hash.1 okay)
            (λ bad. discard-Ensures s st (Downloaded-IsStaged d) bad)
        where
          go :
              (r : StatusOr Hashed) (t : State)
              → HashOutcome b temp (fs s) r
              → fs t ≡ fs s
              → is_ok st ≡ true
              → Ensures
                  (verify_download os b temp destination head r.held_status r.held_value t)
                  (λ st t. GetEnd f st (fs t))
          go r t (hash_failed e bad) g okay =
              rw (e, verify_download)
                (discard-Ensures t r.held_status (rw (← g) at (Downloaded-IsStaged d)) bad)
          go r t (hash_done j there e) g okay =
              let contents = (fs s).bytes j in
              let staged = rw (← g) at (Downloaded-IsStaged d) in
              rw (e, verify_download)
                (Ensures-if
                  (not ((hashed b contents).0 == head.size)
                    || not (same_checksum (hashed b contents).1 head.checksum))
                  _ _ t (λ differ. discard-Ensures t _ staged refl)
                  (λ same.
                    link_destination-Ensures head j t staged (rw g there)
                      (rw g (reports okay j there)) (rw g (IsReported-same head contents same))))
