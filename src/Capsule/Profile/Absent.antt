-- ===== src/Capsule/Profile/Absent.antt =====
-- What a deletion of a capsule has seen when it returns.
use Prim.Native.String.{String}
use yggdrasil_home.Base.{
  ℕ, zero, suc, ◌+◌, ◌≡◌, refl, subst, sym, Bool, true, false, Option, none, some, ◌∷◌, ltb, eqb,
  inl, inr, Bool-cases, is_blank,
}
use yggdrasil_home.Capsule.Session.{
  World, Run, History, Outcome, returned, raised, unfinished, Error, request, read_clock, sleep,
  is_not_found, Response, Reply, responded, failed_with, Request, get_url, delete_url, capsule_url,
  capsule_of, get_capsule, or_raise, ◌>>=◌, pure, connect,
}
use yggdrasil_home.Capsule.Profile.{
  Node, after_look, gone_loop, confirm_absent, request_failed, checked, after_request,
  delete_capsule, deleted_or, delete_node, do_delete,
}

pub data Concerns (url : String) : Request → Type 0 where
  read_it : Concerns url (get_url url)
  delete_it : Concerns url (delete_url url)

module _ (w : World) where
  -- A reply by which the capsule is not there.
  pub data SaysAbsent : Reply → Type 0 where
    status_404 : (r : Response) → eqb r.status_code 404 ≡ true → SaysAbsent (responded r)
    status_error :
        (r : Response) (e : Error)
        → w.raise_for_status r ≡ some e
        → is_not_found e ≡ true
        → SaysAbsent (responded r)
    not_found : (e : Error) → is_not_found e ≡ true → SaysAbsent (failed_with e)

  -- The history ends with a request about the capsule and such a reply to it.
  pub data Absent (url : String) : History → Type 0 where
    absent :
        (r : Request) (h : History)
        → Concerns url r
        → SaysAbsent (w.send (request r ∷ h))
        → Absent url (request r ∷ h)

  module _ (url : String) where
    record Honest (m : Run Bool) : Type 0 where
      at : (h : History) (b : Bool) → (m h).0 ≡ returned b → Absent url (m h).1

    -- The look at the capsule, followed by what is done with its answer.
    look-Absent :
        (reply : Reply) (f : Option Response → Run Bool) (h : History) (b : Bool)
        → w.send (request (get_url url) ∷ h) ≡ reply
        → ((r : Response) → Honest (f (some r)))
        → ((f none (request (get_url url) ∷ h)).1 ≡ request (get_url url) ∷ h)
        → ((capsule_of w reply >>= f) (request (get_url url) ∷ h)).0 ≡ returned b
        → Absent url ((capsule_of w reply >>= f) (request (get_url url) ∷ h)).1
    unfolding capsule_of
    look-Absent (failed_with e) f h b k honest still q = elim (Bool-cases (is_not_found e)) [
      | inl n ↦ rw n (
          subst (Absent url) (sym still)
            (absent (get_url url) h read_it (subst SaysAbsent (sym k) (not_found e n))))
      | inr n ↦ cc (rw n at q)
    ]
    look-Absent (responded r) f h b k honest still q = elim (Bool-cases (eqb r.status_code 404)) [
      | inl n ↦ rw n (
          subst (Absent url) (sym still)
            (absent (get_url url) h read_it (subst SaysAbsent (sym k) (status_404 r n))))
      | inr n ↦ rw n (judged (w.raise_for_status r) (rw n at q))
    ]
      where
        judged :
            (o : Option Error)
            → ((or_raise o (pure (some r)) >>= f) (request (get_url url) ∷ h)).0 ≡ returned b
            → Absent url ((or_raise o (pure (some r)) >>= f) (request (get_url url) ∷ h)).1
        judged none p = (honest r).at (request (get_url url) ∷ h) b p
        judged (some e) p = cc p

    confirm-Honest : (e : Error) (r : Response) → Honest (confirm_absent w e (some r))
    confirm-Honest e r = record { at = λ h b q. cc q }

    request_failed-Absent :
        (e : Error) (h : History) (b : Bool)
        → (is_not_found e ≡ true → SaysAbsent (w.send (request (delete_url url) ∷ h)))
        → (request_failed w url e (request (delete_url url) ∷ h)).0 ≡ returned b
        → Absent url (request_failed w url e (request (delete_url url) ∷ h)).1
    unfolding request_failed get_capsule
    request_failed-Absent e h b s q =
        let asked = request (delete_url url) ∷ h in
        elim (Bool-cases (is_not_found e)) [
          | inl n ↦ rw n (absent (delete_url url) h delete_it (s n))
          | inr n ↦ rw n (
              look-Absent (w.send (request (get_url url) ∷ asked)) (confirm_absent w e) asked b refl
                (confirm-Honest e) refl (rw n at q))
        ]

    gone_loop-Honest :
        (fuel : ℕ) (id : String) (deadline : ℕ) → Honest (gone_loop w fuel url id deadline)
    unfolding gone_loop get_capsule
    gone_loop-Honest zero id deadline = record { at = λ h b q. cc q }
    gone_loop-Honest (suc fuel) id deadline = record {
      at = λ h b q. elim (Bool-cases (ltb (w.now (read_clock ∷ h)) deadline)) [
        | inl k ↦
            let seen = read_clock ∷ h in
            rw k (
              look-Absent (w.send (request (get_url url) ∷ seen))
                (after_look w (gone_loop w fuel url id deadline)) seen b refl
                (λ r. record {
                  at = λ g c. (gone_loop-Honest fuel id deadline).at (sleep 2000 ∷ g) c;
                })
                refl (rw k at q))
        | inr k ↦ cc (rw k at q)
      ];
    }

    after_request-Absent :
        (fuel : ℕ) (id : String) (reply : Reply) (h : History) (b : Bool)
        → w.send (request (delete_url url) ∷ h) ≡ reply
        → (after_request w fuel url id reply (request (delete_url url) ∷ h)).0 ≡ returned b
        → Absent url (after_request w fuel url id reply (request (delete_url url) ∷ h)).1
    unfolding after_request
    after_request-Absent fuel id (failed_with e) h b k q =
        request_failed-Absent e h b (λ n. subst SaysAbsent (sym k) (not_found e n)) q
    after_request-Absent fuel id (responded r) h b k q = elim (Bool-cases (eqb r.status_code 404)) [
      | inl n ↦
          rw n (absent (delete_url url) h delete_it (subst SaysAbsent (sym k) (status_404 r n)))
      | inr n ↦ rw n (judged (w.raise_for_status r) refl (rw n at q))
    ]
      where
        judged :
            (o : Option Error)
            → w.raise_for_status r ≡ o
            → (checked w fuel url id o (request (delete_url url) ∷ h)).0 ≡ returned b
            → Absent url (checked w fuel url id o (request (delete_url url) ∷ h)).1
        judged none m p =
            let asked = request (delete_url url) ∷ h in
            (gone_loop-Honest fuel id (w.now (read_clock ∷ asked) + 300000)).at (read_clock ∷ asked)
              b p
        judged (some e) m p =
            request_failed-Absent e h b (λ n. subst SaysAbsent (sym k) (status_error r e m n)) p

  -- A deletion that returns ends with a reply by which the capsule is absent.
  pub delete_capsule-Absent :
      (fuel : ℕ) (base_url id : String) (h : History) (b : Bool)
      → (delete_capsule w fuel base_url id h).0 ≡ returned b
      → Absent (capsule_url w base_url id) (delete_capsule w fuel base_url id h).1
  unfolding delete_capsule
  delete_capsule-Absent fuel base_url id h b q =
      after_request-Absent (capsule_url w base_url id) fuel id _ h b refl q

  handled-Absent :
      (url id : String) (r : Outcome Bool) (h : History) (b : Bool)
      → (r ≡ returned b → Absent url h)
      → (deleted_or w id r h).0 ≡ returned b
      → Absent url (deleted_or w id r h).1
  handled-Absent url id (returned c) h b k q = k q
  handled-Absent url id (raised e) h b k q = cc q
  handled-Absent url id unfinished h b k q = cc q

  -- A node with a capsule is deleted only when the capsule's absence has been seen last.
  pub do_delete-Absent :
      (fuel : ℕ) (node : Node) (base_url : String) (h : History) (b : Bool)
      → is_blank node.physical_id ≡ false
      → connect w h ≡ (returned base_url, h)
      → (do_delete w fuel node h).0 ≡ returned b
      → Absent (capsule_url w base_url node.physical_id) (do_delete w fuel node h).1
  unfolding do_delete delete_node
  do_delete-Absent fuel node base_url h b n c q =
      rw (n, c)
        (handled-Absent (capsule_url w base_url node.physical_id) node.physical_id
          (delete_capsule w fuel base_url node.physical_id h).0
          (delete_capsule w fuel base_url node.physical_id h).1 b
          (delete_capsule-Absent fuel base_url node.physical_id h b) (rw (n, c) at q))
