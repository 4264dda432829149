-- ===== src/DeepSeek/Replies.antt =====
-- What `chat` makes of the replies to its requests.
use arcc.Base.{
  ℕ, ◌+◌, ◌≤◌, ◌<◌, ◌≡◌, refl, sym, ap, ◌∙◌, ◌⊎◌, inl, inr, false, ◌&&◌, Option, none, some, arith,
  nat_eq, nat_eq_iff, leb, Bool-cases, Option-cases, length, List-cases, list_Eq, subst,
}
use arcc.Base.Text.{Text}
use arcc.Model.Json.{Value}
use arcc.Model.Types.{ChatResponse}
use arcc.Model.Provider.{http, api, Result, ok, err}
use arcc.DeepSeek.{
  DeepSeekResponse, HttpReply, reply, failed, status_error, read_reply, read_response,
}
use arcc.DeepSeek.Retry.{Retried, with_retry, IsLimited, with_retry-IsRun}

module _ (from_str : Text → Option Value) (new_id : ℕ → Text) where
  -- `chat`, by the replies to its attempts.
  unfoldable pub chat : (ℕ → HttpReply) → Retried ChatResponse
  chat replies = with_retry (λ k. read_reply from_str new_id (replies k))

  -- A reply with a status of success whose text was read, with at least one choice.
  pub record Answers (r : HttpReply) (c : ChatResponse) : Type 0 where
    pub status : ℕ
    pub retry_after : Option ℕ
    pub body : Text
    pub json : DeepSeekResponse
    pub is_reply : r ≡ reply status retry_after body (inr json)
    pub low : 200 ≤ status
    pub high : status ≤ 299
    pub reading : read_response from_str new_id json ≡ ok c

  -- A reply with the status 429.
  pub record IsRefusal (r : HttpReply) : Type 0 where
    pub retry_after : Option ℕ
    pub body : Text
    pub json : Text ⊎ DeepSeekResponse
    pub is_reply : r ≡ reply 429 retry_after body json

  status_error-none :
      (status : ℕ) (retry_after : Option ℕ) (body : Text)
      → status_error status retry_after body ≡ none
      → (200 ≤ status) × (status ≤ 299)
  unfolding status_error
  status_error-none status retry_after body h = ground arith

  abbrev read_json : Text ⊎ DeepSeekResponse → Result ChatResponse
  read_json (inl e) = err (http e)
  read_json (inr r) = read_response from_str new_id r

  read_reply-Answers :
      (r : HttpReply) (c : ChatResponse) → read_reply from_str new_id r ≡ ok c → Answers r c
  unfolding read_reply
  read_reply-Answers (failed e) c h = cc
  read_reply-Answers (reply status retry_after body json) c h =
      elim (Option-cases (status_error status retry_after body)) [
        | inr (e, bad) ↦ absurd (ground arith)
        | inl good ↦
            read json (rw (good, read_reply) at h) (status_error-none status retry_after body good)
      ]
    where
      read :
          (json : Text ⊎ DeepSeekResponse)
          → read_json json ≡ ok c
          → (200 ≤ status) × (status ≤ 299)
          → Answers (reply status retry_after body json) c
      read (inl e) h k = cc
      read (inr r) h k = record {
        status = status;
        retry_after = retry_after;
        body = body;
        json = r;
        is_reply = refl;
        low = k.0;
        high = k.1;
        reading = h;
      }

  status_error-other :
      (status : ℕ) (retry_after : Option ℕ) (body : Text)
      → nat_eq status 429 ≡ false
      → (status_error status retry_after body ≡ none)
        ⊎ (status_error status retry_after body ≡ some (api status body))
  unfolding status_error
  status_error-other status retry_after body h =
      elim (Bool-cases (leb 200 status && leb status 299)) [
        | inl success ↦ inl (rw (h, success))
        | inr failure ↦ inr (rw (h, failure))
      ]

  read_response-not_limited :
      (r : DeepSeekResponse) → IsLimited (read_response from_str new_id r) → ⊥
  unfolding read_response
  read_response-not_limited r h = elim (List-cases r.choices) [
    | inl e ↦ rw (e, read_response) at h
    | inr (m, ms, e) ↦ rw (e, read_response) at h
  ]

  read_reply-IsRefusal : (r : HttpReply) → IsLimited (read_reply from_str new_id r) → IsRefusal r
  unfolding read_reply
  read_reply-IsRefusal (failed e) h = absurd h
  read_reply-IsRefusal (reply status retry_after body json) h =
      elim (Bool-cases (nat_eq status 429)) [
        | inl same ↦ record {
          retry_after = retry_after;
          body = body;
          json = json;
          is_reply = ap (λ n. reply n retry_after body json) ((nat_eq_iff status 429).0 same);
        }
        | inr other ↦ elim (status_error-other status retry_after body other) [
          | inl success ↦ absurd (limited json (rw (success, read_reply) at h))
          | inr failure ↦ absurd (rw (failure, read_reply) at h)
        ]
      ]
    where
      limited : (json : Text ⊎ DeepSeekResponse) → IsLimited (read_json json) → ⊥
      limited (inl e) h = h
      limited (inr r) h = read_response-not_limited r h

  -- If `chat` returns a response, it is the reading of one of its first four replies, which has a
  -- status of success, and all replies before that one have the status 429.
  pub chat-Answers :
      (replies : ℕ → HttpReply) (c : ChatResponse)
      → (chat replies).result ≡ ok c
      → (n : ℕ) × (n ≤ 3) × Answers (replies n) c × ((k : ℕ) → k < n → IsRefusal (replies k))
  unfolding chat
  chat-Answers replies c h =
      let run = with_retry-IsRun (λ k. read_reply from_str new_id (replies k)) in
      let n = 0 + length (chat replies).waits in
      (
        n,
        run.few,
        read_reply-Answers (replies n) c (sym run.last ∙ h),
        λ k small. read_reply-IsRefusal (replies k) (
            subst (λ m. IsLimited (read_reply from_str new_id (replies m))) (omega arith)
              (run.refused k (omega arith))),
      )
