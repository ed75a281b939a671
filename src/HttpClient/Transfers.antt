-- ===== src/HttpClient/Transfers.antt =====
-- The class `AsyncHttpClient`: its transfers, responses, sockets and timer, and what completes a
-- transfer. K is the state of the kernel's epoll instance.
use yeti_lnp_resolver.Base.{
  ℕ, suc, Bool, true, false, Option, none, some, List, [], ◌∷◌, ◌++◌, Bytes, c_str, ◌==◌, ℤ, pos,
  negsuc, is_negative, if◌then◌else◌,
}
use yeti_lnp_resolver.Base.Assoc.{lookup, erase}
use yeti_lnp_resolver.Types.{HttpResponse}
use yeti_lnp_resolver.EventHandler.{EventHandler}
use yeti_lnp_resolver.HttpClient.Setup.{CurlOption}
use yeti_lnp_resolver.HttpClient.Timer.{it_value_of}

-- `header_list` is among the options. `error` is the text that libcurl has written last.
pub record ConnInfo : Type 0 where
  pub id : ℕ
  pub options : List CurlOption
  pub error : Bytes
  pub response : Bytes

-- `CURL_POLL_NONE` and so on.
pub data Poll : Type 0 where
  poll_none poll_in poll_out poll_inout poll_remove : Poll

pub record SockInfo : Type 0 where
  pub sock_fd : ℤ
  pub easy : ℕ
  pub action : Poll

-- `transfers` is the multi handle's, by their easy handles; `easy_handles` all that were not cleaned
-- up. `sockets` is what `curl_multi_assign` stored. `notified` is the counter of the eventfd.
pub record HttpClient (K : Type 0) : Type 0 where
  pub base : EventHandler K
  pub transfers : List (ℕ × ConnInfo)
  pub easy_handles : List ℕ
  pub response_queue : List HttpResponse
  pub respose_notifier_fd : ℤ
  pub notified : ℕ
  pub timer_fd : ℤ
  pub it_value : ℕ × ℕ
  pub still_running : ℤ
  pub sockets : List (ℤ × SockInfo)

-- What libcurl calls: the three callbacks, and a write to the error buffer of a transfer.
pub data Callback : Type 0 where
  socket_callback : ℕ → ℤ → Poll → Callback
  timer_callback : ℤ → Callback
  write_callback error_text : ℕ → Bytes → Callback

-- `curl_multi_info_read`: a transfer that is done, and whether with `CURLE_OK`.
pub data Message : Type 0 where
  done : ℕ → Bool → Message
  other_message : Message

unfoldable pub update_conn : ℕ → (ConnInfo → ConnInfo) → List (ℕ × ConnInfo) → List (ℕ × ConnInfo)
update_conn easy f [] = []
update_conn easy f ((k, conn) ∷ m) =
    if k == easy then (k, f conn) ∷ m else (k, conn) ∷ update_conn easy f m

abbrev pub response_of : ConnInfo → Bool → HttpResponse
response_of conn is_ok = record {
  id = conn.id;
  is_success = is_ok;
  body = (if is_ok then conn.response else c_str conn.error);
}

abbrev pub erase_handle : ℕ → List ℕ → List ℕ
erase_handle easy [] = []
erase_handle easy (k ∷ ks) = if k == easy then ks else k ∷ erase_handle easy ks

-- `still_running <= 0`
abbrev pub is_last : ℤ → Bool
is_last (pos (suc n)) = false
is_last _ = true

module _ {K : Type 0} where
  -- The data of one call, `size * nmemb` bytes, go behind what is there.
  unfoldable pub write_cb : ℕ → Bytes → HttpClient K → HttpClient K
  unfolding update_conn
  write_cb easy chunk c = record c {
    transfers =
        update_conn easy (λ conn. record conn { response = conn.response ++ chunk }) c.transfers;
  }

  unfoldable pub write_error : ℕ → Bytes → HttpClient K → HttpClient K
  unfolding update_conn
  write_error easy text c = record c {
    transfers = update_conn easy (λ conn. record conn { error = text }) c.transfers;
  }

  unfoldable pub set_timer_value : ℤ → HttpClient K → HttpClient K
  unfolding it_value_of
  set_timer_value ms c =
      if is_negative c.timer_fd then c else record c { it_value = it_value_of ms }

  unfoldable pub notify_respose_available : HttpClient K → HttpClient K
  notify_respose_available c =
      if is_negative c.respose_notifier_fd then c else record c { notified = suc c.notified }

  -- "last transfer done. clear timeout"
  abbrev pub clear_if_last : HttpClient K → HttpClient K
  clear_if_last c = if is_last c.still_running then set_timer_value (negsuc 0) c else c

  -- A transfer is done: its response is queued, its handle removed and cleaned up.
  unfoldable pub complete : ℕ → Bool → Option ConnInfo → HttpClient K → HttpClient K
  unfolding notify_respose_available
  complete easy is_ok none c = c
  complete easy is_ok (some conn) c = notify_respose_available (record c {
    response_queue = c.response_queue ++ (response_of conn is_ok ∷ []);
    transfers = erase ◌==◌ easy c.transfers;
    easy_handles = erase_handle easy c.easy_handles;
  })

  unfoldable pub check_multi_info : List Message → HttpClient K → HttpClient K
  unfolding complete
  check_multi_info [] c = c
  check_multi_info (done easy is_ok ∷ ms) c =
      check_multi_info ms (complete easy is_ok (lookup ◌==◌ easy c.transfers) c)
  check_multi_info (other_message ∷ ms) c = check_multi_info ms c
