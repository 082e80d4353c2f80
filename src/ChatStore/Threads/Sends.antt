-- ===== src/ChatStore/Threads/Sends.antt =====
-- A send is one row of its thread, whatever overtakes what.
use datha_platform.Base.{
  String, Bool, true, false, ◌||◌, ◌==◌, List, [], ◌∷◌, ◌++◌, Option, none, some, any, or_default,
  All, All-map, ◌≡◌, refl, sym, ap, ◌∙◌, subst, arith, eq_refl,
}
use datha_platform.Base.Iso.{IsoDate}
use datha_platform.Base.Queries.{any-last}
use datha_platform.Base.Texts.{concat}
use datha_platform.ChatStore.Threads.Pages.{
  set_thread-covers, fetched-front, any_none, set_mapped-last, kept_thread,
}
use datha_platform.ChatStore.Threads.{
  ThreadMessage, ThreadMap, set_thread, reconcile, replace_by_client_id, update_in_thread,
  mark_send_failed, is_same, append_to, append_to_thread, is_open_in, optimistic, begin_send,
  finish_send, begin_retry,
}

-- No row has the client id of the send, nor the id of its optimistic row or of its saved message.
pub record IsFresh (client_message_id : String) (saved : ThreadMessage) (m : ThreadMessage)
    : Type 0 where
  pub client : (m.client_message_id == client_message_id) ≡ false
  pub pending_id : (m.id == concat "pending:" client_message_id) ≡ false
  pub saved_id : (m.id == saved.id) ≡ false

module _ (iso : IsoDate) (active : Option String) (id k : String) (saved : ThreadMessage)
    (messages : List ThreadMessage) (fresh : All (IsFresh k saved) messages)
    (named : (k == "") ≡ false) (echoed : saved.client_message_id ≡ k) where
  -- The thread shows one more row, of this send.
  pub record EndsWith (x : ThreadMessage) (threads : ThreadMap) : Type 0 where
    pub thread : threads id ≡ some (messages ++ x ∷ [])
    pub client : x.client_message_id ≡ k
    pub sender : x.sender_owner_id ≡ saved.sender_owner_id

  replaces :
      (x : ThreadMessage) (threads : ThreadMap)
      → EndsWith x threads
      → EndsWith saved (replace_by_client_id iso id k saved threads)
  unfolding replace_by_client_id
  replaces x threads e = record {
    thread =
        set_mapped-last iso id (reconcile k saved) messages x saved threads e.thread
          (All-map (λ m f. rw f.client refl) messages fresh)
          (rw (e.client, e.sender) (rw (eq_refl k, eq_refl saved.sender_owner_id) refl))
          (e.client ∙ sym echoed);
    client = echoed;
    sender = refl;
  }

  updates :
      (x : ThreadMessage) (pending failed : Bool) (threads : ThreadMap)
      → EndsWith x threads
      → EndsWith
          (record x { pending = pending; failed = failed })
          (update_in_thread iso id k pending failed threads)
  unfolding update_in_thread
  updates x pending failed threads e = record {
    thread =
        set_mapped-last iso id _ messages x (record x { pending = pending; failed = failed })
          threads e.thread (All-map (λ m f. rw f.client refl) messages fresh)
          (rw e.client (rw (eq_refl k) refl)) refl;
    client = e.client;
    sender = e.sender;
  }

  echoes :
      (x : ThreadMessage) (threads : ThreadMap)
      → EndsWith x threads
      → EndsWith saved (append_to_thread iso active id saved false threads)
  unfolding append_to_thread
  echoes x threads e =
      let keys : (x.client_message_id == saved.client_message_id) ≡ true =
        ap (λ c. c == saved.client_message_id) (e.client ∙ sym echoed)
        ∙ eq_refl saved.client_message_id in
      let senders : (x.sender_owner_id == saved.sender_owner_id) ≡ true =
        ap (λ c. c == saved.sender_owner_id) e.sender ∙ eq_refl saved.sender_owner_id in
      let nonempty : (saved.client_message_id == "") ≡ false = ap (λ c. c == "") echoed ∙ named in
      let present : any (is_same saved) (messages ++ x ∷ []) ≡ true =
        any-last (is_same saved) messages x (ground (arith, keys, senders, nonempty)) in
      let same : append_to_thread iso active id saved false threads
          ≡ replace_by_client_id iso id saved.client_message_id saved threads =
        ap (λ o. append_to iso id saved o threads)
          (kept_thread (false || is_open_in id active) (threads id) (messages ++ x ∷ []) e.thread)
        ∙ (rw present refl) in
      subst (EndsWith saved)
        (sym (same ∙ ap (λ c. replace_by_client_id iso id c saved threads) echoed))
        (replaces x threads e)

  begins :
      (owner body now : String) (threads : ThreadMap)
      → threads id ≡ some messages
      → (body == "") ≡ false
      → owner ≡ saved.sender_owner_id
      → EndsWith
          (optimistic owner id body k now)
          (begin_send iso active owner id body k now threads)
  unfolding begin_send append_to_thread
  begins owner body now threads loaded filled sent =
      let o = optimistic owner id body k now in
      let absent : any (is_same o) messages ≡ false =
        any_none (is_same o) messages
          (All-map (λ m f. ground (arith, f.client, f.pending_id)) messages fresh) in
      let same : begin_send iso active owner id body k now threads
          ≡ set_thread iso id (messages ++ o ∷ []) threads =
        rw filled (
          ap (λ q. append_to iso id o q threads) (kept_thread true (threads id) messages loaded)
          ∙ rw absent refl) in
      subst (EndsWith o) (sym same) (record {
        thread =
            set_thread-covers iso id (messages ++ o ∷ []) messages threads loaded
              (fetched-front o messages);
        client = refl;
        sender = sent;
      })

  fails :
      (x : ThreadMessage) (threads : ThreadMap)
      → EndsWith x threads
      → EndsWith (record x { pending = true; failed = true }) (finish_send iso id k none threads)
  unfolding finish_send mark_send_failed
  fails x threads e = updates x true true threads e

  retries :
      (x : ThreadMessage) (threads : ThreadMap)
      → EndsWith x threads
      → EndsWith (record x { pending = true; failed = false }) (begin_retry iso id k threads)
  unfolding begin_retry
  retries x threads e =
      let present : any (λ m. m.client_message_id == k) (or_default (threads id) []) ≡ true =
        ap (λ o. any (λ m. m.client_message_id == k) (or_default o [])) e.thread
        ∙ any-last (λ m. m.client_message_id == k) messages x
            (ap (λ c. c == k) e.client ∙ eq_refl k) in
      rw present (updates x true false threads e)

  finishes :
      (x : ThreadMessage) (threads : ThreadMap)
      → EndsWith x threads
      → EndsWith saved (finish_send iso id k (some saved) threads)
  unfolding finish_send
  finishes x threads e = replaces x threads e

-- In a loaded thread, with a client id that no row has, a send ends as one more row, the saved message:
-- whether the answer or the socket's echo comes first, after a failure and a retry, and when the echo of
-- an attempt whose answer was lost comes before the retry.
pub begin_send-once :
    (iso : IsoDate) (active : Option String) (id k owner body now : String) (saved : ThreadMessage)
    (messages : List ThreadMessage) (threads : ThreadMap)
    → threads id ≡ some messages
    → All (IsFresh k saved) messages
    → (k == "") ≡ false
    → (body == "") ≡ false
    → saved.client_message_id ≡ k
    → owner ≡ saved.sender_owner_id
    → let begun = begin_send iso active owner id body k now threads in
      let shown = some (messages ++ saved ∷ []) in
      (append_to_thread iso active id saved false (finish_send iso id k (some saved) begun) id
        ≡ shown)
      × (finish_send iso id k (some saved) (append_to_thread iso active id saved false begun) id
          ≡ shown)
      × (finish_send iso id k
            (some saved)
            (begin_retry iso id k (finish_send iso id k none begun))
            id
          ≡ shown)
      × (finish_send iso id k
            (some saved)
            (begin_retry iso id k
              (append_to_thread iso active id saved false (finish_send iso id k none begun)))
            id
          ≡ shown)
begin_send-once iso active id k owner body now saved messages threads loaded fresh named filled
      echoed sent =
    let start =
      begins iso active id k saved messages fresh named echoed owner body now threads loaded filled
        sent in
    let failed = fails iso active id k saved messages fresh named echoed _ _ start in
    let heard = echoes iso active id k saved messages fresh named echoed _ _ failed in
    (
      (echoes iso active id k saved messages fresh named echoed saved _
          (finishes iso active id k saved messages fresh named echoed _ _ start)).thread,
      (finishes iso active id k saved messages fresh named echoed saved _
          (echoes iso active id k saved messages fresh named echoed _ _ start)).thread,
      (finishes iso active id k saved messages fresh named echoed _ _
          (retries iso active id k saved messages fresh named echoed _ _ failed)).thread,
      (finishes iso active id k saved messages fresh named echoed _ _
          (retries iso active id k saved messages fresh named echoed saved _ heard)).thread,
    )
