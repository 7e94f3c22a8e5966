-- ===== src/Jwt/LoggedOut.antt =====
-- What `Logout` of handler/logout.go does to the tokens in the filters of server/router/router.go.
