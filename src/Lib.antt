-- ===== src/Lib.antt =====
-- A C++ HTTP server on the muduo network library, its response cache, and a URL shortener on both.
-- Paths below start at url_shortener_redis_mysql_release/; Kama is Kama-HTTPServer-main/.
--
-- How the parts interact: a connection's bytes go to a parser that is called again for each message
-- (HttpContext); a request that is complete goes through the middlewares, the router and a handler
-- (HttpServer::handleRequest), then through the middlewares again, and the response is completed and
-- written out (HttpServer::onRequest).
--
-- * Http/Request, Http/Context, Http/Response, Http/Server model Kama/HttpServer/src/http and
--   include/http: HttpRequest, HttpContext, HttpResponse, HttpServer. A std::string is the list of
--   its bytes; a std::unordered_map is an association list in which a key stands once, and a
--   std::map one that is sorted by its keys.
-- * Http/Buffer states what the parser relies on of muduo::net::Buffer, which is not in the
--   repository: the record Buffer has the operations and BufferLaws what their documentation says.
-- * Router models Kama/HttpServer/src/router; std::regex_match is a parameter, a function from an
--   expression and a path to the groups.
-- * Middleware models Kama/HttpServer/src/middleware, with Middleware/Cors for cors/.
-- * HttpCache has the entries, keys and policy of Kama/HttpCache/include/http_cache; HttpCache/Memory
--   models MemoryCacheLRU.cpp and HttpCache/Caching models CacheMiddleware.cpp.
-- * Session models Kama/HttpServer/src/session. Sessions are shared, so they live in a heap.
-- * Shortener models apps/url_shortener: Shortener/Store the stores of IStore.h, KVStore.h,
--   MemoryStore.h and CacheAsideStore.h, Shortener/Handlers the handlers of src/RouterSetup.cpp,
--   Shortener/Guards the middlewares mw_Blacklist.h and CacheAdapter.h, Shortener/HashRing the hash
--   ring, Shortener/Page the metrics page.
--   Shortener/Redis models RedisClient.h, RedisStore.h, RedisBloom.h and mw_RateLimitRedis.h,
--   Shortener/MySql models MySqlStore.h, Shortener/Bloom the words and the hash of Bloom.h,
--   Shortener/Limits RateLimiter.h and mw_RateLimit.h, Shortener/Ids ShortId.h, UrlValidator.h and
--   Trace.h, Shortener/Program the wiring in src/main.cpp and src/main_cache_aside.cpp. hiredis, the
--   connector and the arithmetic of doubles are the records Hiredis, Connector and Doubles.
-- * Database models Kama/HttpServer/src/utils/db: Database/Connection a DbConnection over the MySQL
--   connector, Database/Util MysqlUtil.h, Database/Pool the members of DbConnectionPool that its
--   lock guards, and Database/Pool/Steps the threads around it, each section under the lock as one
--   step.
-- * Ssl models Kama/HttpServer/src/ssl over OpenSSL, the record OpenSsl of its calls, and Ssl/Server
--   the branches of HttpServer.cpp for encrypted connections.
-- * Exceptions has what such calls do: change an object and the world, and throw or not. A thrown
--   response, a std::exception, anything else that is thrown and a null pointer that is followed are
--   told apart; Database tells a sql::SQLException from the other exceptions of std.
-- * Std models what is used of the C++ library: find, split, isspace, stoi, to_string, the maps, and
--   `^` on bits.
--
-- Loops are structural recursion, but for `parseRequest`: it runs on fuel, one more than the bytes in
-- the buffer, which is enough since each round that goes on to another takes two bytes or changes to
-- the last state. The loop that evicts from the cache runs on as much fuel as there are nodes, of which
-- each turn takes one. Operations that hold a lock are steps one after the other. Clocks and random
-- generators are arguments. MemoryStore's setNX takes two locks, one after the other; it is modelled
-- as it runs with no other thread between them, so what is shown of the stores and of the handlers
-- over them is shown for calls one after the other.
--
-- assert(method_ == kInvalid) in HttpRequest::setMethod ends a program that is built without NDEBUG.
-- The parser is modelled with NDEBUG; method_unset says where the assertion holds, and
-- Http/Context/Asserts that a round that goes on leaves it true for the next.
--
-- An int that may be negative and whose negative values are treated as 0 is its 32 bits, and
-- is_positive tests it. The laws of Redis are those of a server that answers and whose keys hold texts.
--
-- onMessage of an encrypted connection calls itself through onRead, and runs on as much fuel as
-- OpenSSL holds bytes; the loop of SslConnection::send on the bytes of the BIO; those of
-- DbConnection::cleanup on fuel, of which the result says whether it was enough.
--
-- Not modelled: the thread pool of muduo and the start of the server, the sleeping of the thread that
-- checks the pool, the stores of Redis and MySQL as an IStore (their calls may throw, and the record
-- Store has calls that do not), what a call of MemoryStore does while another thread is in one, what
-- OpenSSL, hiredis, MySQL and Redis do inside, files, the environment, and log lines.
mod Prelude
pub mod Std
pub mod Http
pub mod Exceptions
pub mod Router
pub mod Middleware
pub mod HttpCache
pub mod Session
pub mod Shortener
pub mod Database
pub mod Ssl
