-- ===== src/Lib.antt =====
-- Pyroflow adds conversations to a Telegram client: a coroutine calls `listen` and is suspended
-- until an update arrives for its key, while other updates go to handlers as usual.
--
-- Prelude holds what the other files share: dictionaries, Boolean tests, and the state and
-- exception monad `M`, in which a raise keeps the mutations made before it, as in Python.
--
-- Models is pyroflow/models.py: the key of a listener (chat, user, message) and `sub_keys`, the
-- candidates under which an update looks for a listener. The bit masks of `_get_plan` are numbers;
-- `bit_length` and `bit_count` recurse on fuel, and the number itself is enough of it, since
-- halving a number that is not 0 makes it smaller. Models/SubKeys says what the candidates are.
--
-- Errors is pyroflow/errors.py with the exceptions of Python, asyncio and Pyrogram.
--
-- ListenerCoordinator is pyroflow/listener_coordinator/listener_coordinator.py: the abstract class as
-- a record of operations, and its contract, `IsRegistry`. ListenerCoordinator/Memory is
-- memory_listener_coordinator.py, and ListenerCoordinator/Redis is redis_listener_coordinator.py over a
-- parameter for the Redis server, `Redis`. Each command and each Lua script is one atomic step; the
-- packed key of the server stands for the key itself, and `uuid4` is a stream of tokens. Contract, under
-- each of the two, is about the contract, Redis/Release about what `stop` frees. Redis/Packing has the
-- text of a key and the task that reads cancel signals, Redis/Signals the payload of a signal, and
-- Packing/Applied what the signals do to the session of a listener.
--
-- Session is the state that one `UpdateListener` mutates: the coordinator's state, the dictionary
-- of local listeners, the futures, and the done callbacks that the event loop has yet to run.
-- Futures are shared between a waiting coroutine and a listener, so they live on a heap.
--
-- UpdateListener is pyroflow/update_listener/update_listener.py over any coordinator: `listen_register`
-- and `listen_wait` are the two halves of `listen`, before and after its wait, `cancel_locked` is
-- `_cancel`, and `resolve` is cut into `try_keys`, its loop, and `deliver`, the loop's body. A block
-- under the chat lock is one step, since the lock serialises all such blocks of a chat and blocks
-- of other chats touch other keys. UpdateListener/Cancel, Wait, Register and Resolve are about
-- single operations. UpdateListener/System lets steps of many coroutines interleave in any order,
-- `Step` and `Reach`; System/Safety and System/Delivery are about every world that can be reached.
-- `stop` of the listener is a number of cancels and then `stop` of the coordinator, with other steps
-- between them. The calls of other sessions that share the registry are steps as well, `rival_acts`;
-- System/Shared compares them with what the Redis coordinator does. Tokens must not come back for
-- what holds in these worlds: that is a hypothesis on the coordinator's `stop`, which the one on
-- Redis meets and the one in memory does not, since it starts counting anew.
--
-- UpdateListener/Message is message_listener.py, beside it: the hooks for messages when no others are
-- given. UpdateListener/Callback is callback_query_listener.py, with those for callback queries and its
-- `on_unresolved`, which reaches into the session of the client's listener for messages: its state
-- is both sessions. Callback/Buttons joins it to the metadata that `Client.ask` attaches.
-- UpdateListener/Bypass is the test `_is_bypass` for messages: the pattern of commands is a function that
-- takes the longest name and the longest target, and Bypass/Command compares it with the pattern.
--
-- User callbacks and the asyncio primitives are the parameters `Hooks` and the clauses of
-- `wait_for`: a wait ends by its future, by the timeout or by the cancellation of its task. When
-- the future is done and an interruption reaches the task before it has resumed, the interruption
-- decides, as in asyncio: the flag of `Interrupt` says which of the two came first.
--
-- UpdateCoordinator is pyroflow/update_coordinator/update_coordinator.py and
-- pyroflow/update_coordinated/update_coordinated.py: the lock and the registry of handled updates,
-- with their contract, and the hooks that name an update's lock and identity.
-- UpdateCoordinator/Memory is memory_update_coordinator.py over any TTL cache of names,
-- UpdateCoordinator/Redis redis_update_coordinator.py over a server and the lock of redis-py, and
-- UpdateCoordinator/Keys the text of a key (`build_key`). UpdateCoordinator/Defaults has the default
-- hooks of message_coordinated.py and callback_query_coordinated.py.
--
-- Dispatcher and its children are pyroflow/dispatcher.py. Settlement is `_CoordinatedRelease` and
-- `mark_handled`; a callback is a `Program`, the calls it makes, so that a handler can claim its
-- settlement at any point and the event loop can run it at any later one. Dispatcher has the loops
-- over groups and handlers, Pipeline `_handle_update` (`handle_groups`) and `handle_update`, and
-- Pipeline/Tables the tables by update type. What a listener, a handler or a history does beyond
-- that is a change of the world `W`; Pipeline/Swallow takes for it the session of an UpdateListener.
-- Dispatcher/Worker is the loop of `handler_worker` over the packets that the queue will return. A
-- `Program` is well-founded, so a handler that never returns is not expressed: what is said of
-- `handle_update` and the worker is about handlers that return or raise.
--
-- UpdateHistoryStore is the heap of records that memory_update_history_store.py (under
-- pyroflow/update_history_store/) keeps for a key, UpdateHistoryStore/Memory the store over any
-- cache, and UpdateHistoryStore/Expiry what it does when the cache's entries expire. A heap is its
-- sorted list, since the code sees only its least record, its length and its sorted list.
-- UpdateHistory is pyroflow/update_history/update_history.py over any store, and
-- UpdateHistory/Defaults the default hooks beside it. Times are whole numbers, and each call is told
-- the time.
--
-- BotCommands is the bookkeeping of commands in pyroflow/client.py (`_collect_bot_commands`,
-- `_discard_bot_commands`, `_prune_bot_commands` and the selection of `push_bot_commands`).
-- BotCommands/Tasks has the tasks that `add_handler` and `remove_handler` create: one that has to wait
-- for the dispatcher's locks stays in a queue until the workers give theirs back. What Pyrogram's own
-- task does under the locks is a parameter. BotCommands/Tasks/Publishing has the calls at Telegram.
--
-- Client is `Client.ask` with the table of its error handlers (pyroflow/client.py) and
-- `handle_ask_error` of pyroflow/utils/misc_tools.py, and Client/Reply `Message.ask` of pyroflow/types.py.
-- Telegram's methods and the listeners are a parameter, the record `Client`. Client/AskErrors is about
-- errors of the wait.
--
-- Filters is pyroflow/filters.py. A text is the list of its code points, and Text has the methods of
-- `str` that the code uses, with `str(int)` and `int(str)`; Text/Split and Text/Fields are about
-- splitting and joining. `split` cuts as often as the text is long, which is enough, since each cut
-- takes a separator away, and the digits of a number are computed on more fuel than the number.
--
-- Not modelled: the locks of the Redis listener coordinator, the accessors of the client, `start` and
-- `stop` of the mixin and of the dispatcher, logging, and Pyrogram's own dispatcher, which starts
-- workers and parses updates.
pub mod Prelude
pub mod Text
pub mod Models
pub mod Errors
pub mod ListenerCoordinator
pub mod Session
pub mod UpdateListener
pub mod UpdateCoordinator
pub mod Dispatcher
pub mod UpdateHistoryStore
pub mod UpdateHistory
pub mod BotCommands
pub mod Client
pub mod Filters
